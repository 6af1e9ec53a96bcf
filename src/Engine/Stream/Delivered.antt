-- ===== src/Engine/Stream/Delivered.antt =====
-- engine.rs: what the other end hands to Swift of a whole stream of turns.
use shadowvpn_ios.Prelude.{
  ℕ, zero, suc, ◌^◌, ◌<◌, ◌≡◌, ◌∙◌, sym, ◌⊎◌, inl, inr, refl, ap, true, Option, none, some, List,
  [], ◌∷◌, ◌++◌, map, length, get_elem?, All, arith,
}
use shadowvpn_ios.Prelude.Outcome.{ret}
use shadowvpn_ios.Crypto.{PrimitiveLaws}
use shadowvpn_ios.Obfs.{Obfuscator}
use shadowvpn_ios.Engine.{Link, Plane, add64, egress_round}
use shadowvpn_ios.Engine.Tunnel.{Matches}
use shadowvpn_ios.Engine.Stream.{
  Turn, send_all, receive_all, packets_of, IsTurn, IsCarrier, pick, concat, total, count_all,
}
use shadowvpn_ios.Engine.Stream.Carried.{plain, crossing}

-- The packets of many turns.
abbrev pub packets : List Turn → List (List ℕ)
packets ts = concat (map packets_of ts)

count_all-append :
    (n : ℕ) (xs ys : List (List ℕ)) → count_all n (xs ++ ys) ≡ count_all (count_all n xs) ys
unfolding count_all
count_all-append n [] ys = refl
count_all-append n (x ∷ xs) ys = count_all-append (add64 n (length x)) xs ys

-- A counter of 64 bits that wraps around after every packet ends where it would with one addition.
count_all-total : (n : ℕ) (xs : List (List ℕ)) → n < 2 ^ 64 → count_all n xs ≡ add64 n (total xs)
unfolding count_all total
count_all-total n [] h = omega arith
count_all-total n (x ∷ xs) h = count_all-total (add64 n (length x)) xs (omega arith) ∙ omega arith

-- A plane after more packets were received.
abbrev counted : Plane → List (List ℕ) → Plane
counted d out = record d { down_bytes = count_all d.down_bytes out }

-- A plane with more bytes received.
abbrev pub received : Plane → List (List ℕ) → Plane
received d out = record d { down_bytes = add64 d.down_bytes (total out) }

module _ {A : Type 0} (i : ℕ) (is : List ℕ) (xs : List A) where
  pick-none : get_elem? xs i ≡ none → pick (i ∷ is) xs ≡ pick is xs
  unfolding pick
  pick-none e = rw (e, pick) refl

  pick-some : (x : A) → get_elem? xs i ≡ some x → pick (i ∷ is) xs ≡ x ∷ pick is xs
  unfolding pick
  pick-some x e = rw (e, pick) refl

module _ (link : Link) (f : Option Obfuscator) where
  -- The other end, with shaping `f`, hands the packets of `t` to Swift when it reads `wire`.
  abbrev Arrives : List ℕ → Turn → Type 0
  Arrives wire t =
      (df : Plane)
      → df.shared.obfuscator ≡ f
      → egress_round link wire df
        ≡ ret (record {
          plane = counted df (packets_of t);
          emitted = packets_of t;
          sent = [];
          goes_on = true;
        })

  abbrev Carry : List (List ℕ) → List Turn → Type 0
  Carry [] [] = Unit
  Carry (w ∷ ws) (t ∷ ts) = Arrives w t × Carry ws ts
  Carry [] (t ∷ ts) = ⊥
  Carry (w ∷ ws) [] = ⊥

  get_elem?-Carry :
      (i : ℕ) (ws : List (List ℕ)) (ts : List Turn)
      → Carry ws ts
      → ((get_elem? ws i ≡ none) × (get_elem? ts i ≡ none))
        ⊎ ((w : List ℕ) × (t : Turn) × (get_elem? ws i ≡ some w)
            × (get_elem? ts i ≡ some t)
            × Arrives w t)
  get_elem?-Carry i [] [] h = inl (refl, refl)
  get_elem?-Carry i [] (t ∷ ts) h = absurd h
  get_elem?-Carry i (w ∷ ws) [] h = absurd h
  get_elem?-Carry zero (w ∷ ws) (t ∷ ts) (a, h) = inr (w, t, refl, refl, a)
  get_elem?-Carry (suc i) (w ∷ ws) (t ∷ ts) (a, h) = get_elem?-Carry i ws ts h

  pick-Carry :
      (is : List ℕ) (ws : List (List ℕ)) (ts : List Turn)
      → Carry ws ts
      → Carry (pick is ws) (pick is ts)
  unfolding pick
  pick-Carry [] ws ts h = tt
  pick-Carry (i ∷ is) ws ts h = elim (get_elem?-Carry i ws ts h) [
    | inl (e, e') ↦ rw (pick-none i is ws e, pick-none i is ts e') (pick-Carry is ws ts h)
    | inr (w, t, e, e', a) ↦
        rw (pick-some i is ws w e, pick-some i is ts t e') (a, pick-Carry is ws ts h)
  ]

  receive_all-Carry :
      (ws : List (List ℕ)) (ts : List Turn) (df : Plane)
      → df.shared.obfuscator ≡ f
      → Carry ws ts
      → receive_all link ws df ≡ ret (counted df (packets ts), packets ts)
  unfolding receive_all concat
  receive_all-Carry [] [] df e h = unfold count_all in refl
  receive_all-Carry [] (t ∷ ts) df e h = absurd h
  receive_all-Carry (w ∷ ws) [] df e h = absurd h
  receive_all-Carry (w ∷ ws) (t ∷ ts) df e (a, h) =
      let df' = counted df (packets_of t) in
      rw (a df e, receive_all-Carry ws ts df' e h)
        (ap (λ n. ret (record df { down_bytes = n }, packets (t ∷ ts)))
          (sym (count_all-append df.down_bytes (packets_of t) (packets ts))))

-- What a stream of turns sends.
record IsSent (link : Link) (ts : List Turn) (dn : Plane) (f : Option Obfuscator) : Type 0 where
  wires : List (List ℕ)
  after : Plane
  sent : send_all link ts dn ≡ ret (after, wires)
  one_each : length wires ≡ length ts
  counted_up : after.up_bytes ≡ count_all dn.up_bytes (packets ts)
  carried : Carry link f wires ts

stream-IsSent :
    (base : Link) (laws : PrimitiveLaws base.primitives) (ts : List Turn) (dn : Plane)
    (f : Option Obfuscator)
    → All (IsTurn (plain base)) ts
    → IsCarrier dn.shared.obfuscator
    → Matches dn.shared.obfuscator f
    → IsSent (plain base) ts dn f
unfolding send_all concat
stream-IsSent base laws [] dn f v c m = record {
  wires = [];
  after = dn;
  sent = refl;
  one_each = refl;
  counted_up = unfold count_all in refl;
  carried = tt;
}
stream-IsSent base laws (t ∷ ts) dn f (v, vs) c m =
    let x = crossing base laws t dn f v c m in
    let r = stream-IsSent base laws ts x.after f vs x.carrier x.matches in
    record {
      wires = x.wire ∷ r.wires;
      after = r.after;
      sent = rw (x.round, r.sent) refl;
      one_each = omega (arith, r.one_each);
      counted_up =
          r.counted_up
          ∙ ap (λ n. count_all n (packets ts)) x.counted
          ∙ sym (count_all-append dn.up_bytes (packets_of t) (packets ts));
      carried = (x.arrives, r.carried);
    }

-- A stream of packets of the app and keepalive ticks, over any lossy network: each turn sends one
-- datagram, and of any of them that arrive, in any order and any number of times, the other end hands
-- Swift exactly the packets, once for each arrival, and nothing for a keepalive. Both ends count the
-- bytes of the packets and no others, in counters of 64 bits that wrap. The packets have 20 to 40000
-- bytes and `describe` does not panic on them; neither end has an interceptor; the ends share cipher,
-- key and shaping; salts have the cipher's length, a QUIC id has at most 20 bytes, what is sent and
-- drawn is bytes, and the counters fit 64 bits at the start.
pub stream_delivers :
    (base : Link) (laws : PrimitiveLaws base.primitives) (ts : List Turn) (arrivals : List ℕ)
    (dn df : Plane)
    → All (IsTurn (plain base)) ts
    → IsCarrier dn.shared.obfuscator
    → Matches dn.shared.obfuscator df.shared.obfuscator
    → dn.up_bytes < 2 ^ 64
    → df.down_bytes < 2 ^ 64
    → (wires : List (List ℕ)) × (after : Plane) × (send_all (plain base) ts dn ≡ ret (after, wires))
      × (length wires ≡ length ts)
      × (after.up_bytes ≡ add64 dn.up_bytes (total (packets ts)))
      × (receive_all (plain base) (pick arrivals wires) df
          ≡ ret (received df (packets (pick arrivals ts)), packets (pick arrivals ts)))
stream_delivers base laws ts arrivals dn df v c m up down =
    let f = df.shared.obfuscator in
    let r = stream-IsSent base laws ts dn f v c m in
    let out = packets (pick arrivals ts) in
    (
      r.wires,
      r.after,
      r.sent,
      r.one_each,
      r.counted_up ∙ count_all-total dn.up_bytes (packets ts) up,
      receive_all-Carry (plain base) f (pick arrivals r.wires) (pick arrivals ts) df refl
            (pick-Carry (plain base) f arrivals r.wires ts r.carried)
          ∙ ap (λ n. ret (record df { down_bytes = n }, out))
              (count_all-total df.down_bytes out down),
    )
