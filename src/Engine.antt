-- ===== src/Engine.antt =====
-- core/rust/shadowvpn-ios-ffi/src/engine.rs: the session and its three tasks. One round of a task's
-- loop is a function; the sockets, the channel and the interceptor's wait are arguments and results.
-- A plain datagram is one that no obfuscator shapes.
pub mod Session
pub mod Tunnel
pub mod Stream
pub mod Lookup
pub mod Reply
pub mod Started
mod Tests
use shadowvpn_ios.Prelude.{
  ℕ, suc, ◌+◌, ◌%◌, ◌^◌, ◌≤◌, ◌<◌, Bool, true, false, Option, none, some, List, [], ◌∷◌, ◌++◌,
  length, take, ltb, if◌then◌else◌,
}
use shadowvpn_ios.Prelude.Outcome.{Outcome, ret, nothing, panic, ◌>>=◌, discard}
use shadowvpn_ios.Prelude.Result.{Result, ok, err, map_err}
use shadowvpn_ios.Text.{Text}
use shadowvpn_ios.Crypto.{Primitives, Cipher, encrypt_packet, decrypt_packet}
use shadowvpn_ios.Protocol.{max_datagram_size}
use shadowvpn_ios.Obfs.{Obfuscator, max_header, unwrap}
use shadowvpn_ios.Inspect.{describe}
use shadowvpn_ios.Intercept.{Setup, State, Random, shape, try_intercept, try_handle_tunneled_reply}
use shadowvpn_ios.Config.{RuntimeConfig, ConfigError}

abbrev pub keepalive_payload : List ℕ
keepalive_payload = 0 ∷ []

abbrev pub ingest_queue_depth : ℕ
ingest_queue_depth = 1024

-- `fetch_add` of an `AtomicI64`, on its 64 bits.
abbrev pub add64 : ℕ → ℕ → ℕ
add64 a b = (a + b) % 2 ^ 64

-- What the tasks of a session share: the arguments of the three loops.
pub record Link : Type 0 where
  pub primitives : Primitives
  pub cipher : Cipher
  pub master_key : List ℕ
  pub interceptor : Option Setup

-- `UP_BYTES`, `DOWN_BYTES`, as the 64 bits of each counter, and what the tasks share and change: the obfuscator, and the interceptor's
-- pending queries.
pub record Plane : Type 0 where
  pub up_bytes : ℕ
  pub down_bytes : ℕ
  pub shared : State

unfoldable pub traffic : Plane → ℕ × ℕ
traffic plane = (plane.up_bytes, plane.down_bytes)

-- What one round of a loop does: the packets handed to Swift, the datagrams that `socket.send` takes,
-- and whether the task goes on.
pub record Round : Type 0 where
  pub plane : Plane
  pub emitted : List (List ℕ)
  pub sent : List (List ℕ)
  pub goes_on : Bool

-- A round that ends with `continue`.
abbrev pub skip : Plane → Round
skip d = record { plane = d; emitted = []; sent = []; goes_on = true }

-- What `try_intercept` does of a packet: nothing where there is no interceptor.
pub intercept :
    Option Setup
    → Random
    → List ℕ
    → Option (List ℕ)
    → State
    → Outcome (State × List (List ℕ) × Bool × List (List ℕ))
intercept none rnd packet answer s = ret (s, [], false, [])
intercept (some setup) rnd packet answer s = try_intercept setup rnd packet answer s

pub consume : Option Setup → List ℕ → State → Outcome (State × List (List ℕ) × Bool)
consume none plaintext s = ret (s, [], false)
consume (some setup) plaintext s = try_handle_tunneled_reply setup plaintext s

module _ (link : Link) where
  -- The end of a round of `ingress_loop`: encrypt, shape and send. `sends` is whether `socket.send`
  -- succeeds.
  pub forward_packet : Random → Bool → List ℕ → Plane → Round
  forward_packet rnd sends pkt d =
      elim (encrypt_packet link.primitives link.cipher rnd.salt link.master_key pkt) [
        | err e ↦ skip d
        | ok datagram ↦
            let (wire, obfuscator') = shape rnd.byte d.shared.obfuscator datagram in
            let d' = record d { shared = record d.shared { obfuscator = obfuscator' } } in
            if sends
            then record {
              plane = record d' { up_bytes = add64 d.up_bytes (length pkt) };
              emitted = [];
              sent = wire ∷ [];
              goes_on = true;
            }
            else record { plane = d'; emitted = []; sent = []; goes_on = false }
      ]

  -- One packet of `ingress_loop`. `direct` is the random part and the domestic answer of the
  -- interceptor.
  unfoldable pub ingress_round :
      Random → Option (List ℕ) → Random → Bool → List ℕ → Plane → Outcome Round
  unfolding forward_packet intercept
  ingress_round direct answer rnd sends pkt d = do
    _ ← discard (describe pkt)
    (s', emitted, taken, tunneled) ← intercept link.interceptor direct pkt answer d.shared
    let d' = record d { shared = s' }
    ret (
        if taken
        then record { plane = d'; emitted = emitted; sent = tunneled; goes_on = true }
        else forward_packet rnd sends pkt d')

  -- `Obfuscator::unwrap` where there is one.
  pub unshape : Option Obfuscator → List ℕ → Option (List ℕ)
  unshape none datagram = some datagram
  unshape (some o) datagram = unwrap o datagram

  -- The end of a round of `egress_loop`.
  pub deliver : List ℕ → Plane → Outcome Round
  unfolding consume
  deliver plaintext d = if ltb (length plaintext) 20 then ret (skip d) else do
    (s', emitted, consumed) ← consume link.interceptor plaintext d.shared
    let d' = record d { shared = s' }
    ret (
        if consumed
        then record { plane = d'; emitted = emitted; sent = []; goes_on = true }
        else record {
          plane = record d' { down_bytes = add64 d.down_bytes (length plaintext) };
          emitted = plaintext ∷ [];
          sent = [];
          goes_on = true;
        })

  abbrev pub buffer_size : ℕ
  buffer_size = max_datagram_size link.cipher + max_header

  -- One datagram of `egress_loop`; `recv` cuts what is longer than the buffer.
  unfoldable pub egress_round : List ℕ → Plane → Outcome Round
  unfolding deliver unshape
  egress_round received d = elim (unshape d.shared.obfuscator (take buffer_size received)) [
    | none ↦ ret (skip d)
    | some datagram ↦ elim (decrypt_packet link.primitives link.cipher link.master_key datagram) [
      | err e ↦ ret (skip d)
      | ok plaintext ↦ deliver plaintext d
    ]
  ]

  -- One tick of `keepalive_loop`.
  unfoldable pub keepalive_round : Random → Bool → Plane → Round
  keepalive_round rnd sends d =
      elim (encrypt_packet link.primitives link.cipher rnd.salt link.master_key keepalive_payload) [
        | err e ↦ skip d
        | ok datagram ↦
            let (wire, obfuscator') = shape rnd.byte d.shared.obfuscator datagram in
            let d' = record d { shared = record d.shared { obfuscator = obfuscator' } } in
            if sends
            then record { plane = d'; emitted = []; sent = wire ∷ []; goes_on = true }
            else record { plane = d'; emitted = []; sent = []; goes_on = false }
      ]
