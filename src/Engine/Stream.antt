-- ===== src/Engine/Stream.antt =====
-- engine.rs: many rounds of the tasks of two ends. The near end's ingress and keepalive loops take their
-- turns on one plane; the other end's egress loop reads what arrives.
pub mod Carried
pub mod Delivered
use shadowvpn_ios.Prelude.{
  ℕ, ◌+◌, ◌≤◌, ◌≡◌, Bool, true, Option, none, some, List, [], ◌∷◌, ◌++◌, length, get_elem?, All,
  IsByte,
}
use shadowvpn_ios.Prelude.Outcome.{Outcome, ret, ◌>>=◌, Safe}
use shadowvpn_ios.Crypto.{salt_len}
use shadowvpn_ios.Obfs.{Obfuscator}
use shadowvpn_ios.Obfs.Shaped.{IsNarrow}
use shadowvpn_ios.Inspect.{describe}
use shadowvpn_ios.Intercept.{Random}
use shadowvpn_ios.Engine.{Link, Plane, add64, Round, ingress_round, egress_round, keepalive_round}

-- A turn of the near end whose `send` succeeds: a packet of the app, or a tick of the keepalive timer.
pub data Turn : Type 0 where
  forwards : List ℕ → Random → Turn
  ticks : Random → Turn

pub near_round : Link → Turn → Plane → Outcome Round
near_round link (forwards pkt rnd) d = ingress_round link rnd none rnd true pkt d
near_round link (ticks rnd) d = ret (keepalive_round link rnd true d)

-- The turns in their order, and the datagrams that they send.
pub send_all : Link → List Turn → Plane → Outcome (Plane × List (List ℕ))
unfolding near_round
send_all link [] d = ret (d, [])
send_all link (t ∷ ts) d = do
  r ← near_round link t d
  (d', sent) ← send_all link ts r.plane
  ret (d', r.sent ++ sent)

-- The rounds of the egress loop, and the packets that they hand to Swift.
pub receive_all : Link → List (List ℕ) → Plane → Outcome (Plane × List (List ℕ))
receive_all link [] d = ret (d, [])
receive_all link (wire ∷ wires) d = do
  r ← egress_round link wire d
  (d', emitted) ← receive_all link wires r.plane
  ret (d', r.emitted ++ emitted)

-- What the peer hands to Swift for a turn.
unfoldable pub packets_of : Turn → List (List ℕ)
packets_of (forwards pkt rnd) = pkt ∷ []
packets_of (ticks rnd) = []

unfoldable pub IsRandom : Link → Random → Type 0
IsRandom link rnd = (length rnd.salt ≡ salt_len link.cipher) × All IsByte rnd.salt × IsByte rnd.byte

-- A packet of the app is an IPv4 packet that the description does not panic on.
unfoldable pub IsTurn : Link → Turn → Type 0
IsTurn link (forwards pkt rnd) =
    IsRandom link rnd
    × (20 ≤ length pkt)
    × (length pkt ≤ 40000)
    × All IsByte pkt
    × Safe (describe pkt)
IsTurn link (ticks rnd) = IsRandom link rnd

unfoldable pub IsCarrier : Option Obfuscator → Type 0
IsCarrier none = Unit {0}
IsCarrier (some o) = IsNarrow o

-- The elements at the positions that a list of positions names, in its order: what the network makes of
-- what was sent, by losing, repeating and reordering.
unfoldable pub pick {ℓ} : {A : Type ℓ} → List ℕ → List A → List A
pick [] xs = []
pick (i ∷ is) xs = elim (get_elem? xs i) [ none ↦ pick is xs | some x ↦ x ∷ pick is xs ]

unfoldable pub concat : List (List (List ℕ)) → List (List ℕ)
concat [] = []
concat (xs ∷ xss) = xs ++ concat xss

-- A counter after packets of these lengths.
unfoldable pub count_all : ℕ → List (List ℕ) → ℕ
count_all n [] = n
count_all n (p ∷ ps) = count_all (add64 n (length p)) ps

unfoldable pub total : List (List ℕ) → ℕ
total [] = 0
total (p ∷ ps) = length p + total ps
