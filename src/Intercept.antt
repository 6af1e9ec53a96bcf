-- ===== src/Intercept.antt =====
-- core/rust/shadowvpn-ios-ffi/src/dns_intercept.rs, the interceptor: which packets it takes, the clean
-- copy that it sends through the tunnel, and the pairing of replies. `try_intercept` waits for the
-- domestic answer between `begin` and `finish`; a tunneled reply can be handled in between.
pub mod Branches
pub mod Replies
pub mod Resolved
pub mod Build
pub mod History
mod Tests
use shadowvpn_ios.Prelude.{
  ℕ, ◌+◌, ◌≤◌, ◌≡◌, Bool, true, false, ◌&&◌, ◌||◌, not, Option, none, some, List, [], ◌∷◌, ◌++◌,
  length, ◌==◌, if◌then◌else◌,
}
use shadowvpn_ios.Prelude.Outcome.{Outcome, ret, nothing, panic, ◌>>=◌, on_none}
use shadowvpn_ios.Prelude.Result.{ok, err}
use shadowvpn_ios.Chnroute.{ChnRoute, contains}
use shadowvpn_ios.Obfs.{Obfuscator, wrap}
use shadowvpn_ios.Crypto.{Primitives, Cipher, encrypt_packet}
use shadowvpn_ios.Dns.{question, a_records, type_a, class_in}
use shadowvpn_ios.Packet.{ParsedQuery, dns_port, txid, build_udp_ipv4, parse_udp_dns_query}

pub record Pending : Type 0 where
  pub client_ip : ℕ
  pub client_port : ℕ
  pub server_ip : ℕ
  pub server_port : ℕ

-- The fields of `DnsInterceptor` that do not change. The two sockets are what the results of `begin`
-- are sent on; the domestic answer is an argument of `finish`.
pub record Setup : Type 0 where
  pub primitives : Primitives
  pub chnroute : ChnRoute
  pub dns_remote_ip : ℕ
  pub dns_remote_port : ℕ
  pub cipher : Cipher
  pub master_key : List ℕ

-- The fields that do: the pending queries by transaction id, and the shared obfuscator.
pub record State : Type 0 where
  pub pending : ℕ → Option Pending
  pub obfuscator : Option Obfuscator

-- The random bytes that one encrypted datagram takes.
pub record Random : Type 0 where
  pub salt : List ℕ
  pub byte : ℕ

abbrev pub update {ℓ} : {A : Type ℓ} → (ℕ → A) → ℕ → A → ℕ → A
update f i a j = if i == j then a else f j

unfoldable pub pending_of : ParsedQuery → Pending
pending_of q = record {
  client_ip = q.client_ip;
  client_port = q.client_port;
  server_ip = q.server_ip;
  server_port = q.server_port;
}

-- The obfuscation of a finished datagram, and the obfuscator with its counter advanced.
unfoldable pub shape : ℕ → Option Obfuscator → List ℕ → List ℕ × Option Obfuscator
shape rnd none datagram = (datagram, none)
shape rnd (some o) datagram = let (wire, o') = wrap rnd o datagram in (wire, some o')

-- What `try_intercept` makes of a packet before it acts.
pub data Plan : Type 0 where
  forward : Plan
  relay : ParsedQuery → Plan
  race : ParsedQuery → Plan

unfoldable pub classify : List ℕ → Outcome Plan
classify packet = on_none (parse_udp_dns_query packet) (ret forward) λ q.
    on_none (question q.dns) (ret forward) λ (name, qtype, qclass).
      if not (qtype == type_a) || not (qclass == class_in) then ret (relay q) else ret (race q)

-- `emit_response`: the packet that goes back to the client.
unfoldable pub response : ParsedQuery → List ℕ → List ℕ
response q dns_payload =
    build_udp_ipv4 q.server_ip q.server_port q.client_ip q.client_port dns_payload

module _ (setup : Setup) where
  -- The datagrams that go down the tunnel stand beside the new state.
  unfoldable pub send_clean_tunneled : Random → ParsedQuery → State → State × List (List ℕ)
  send_clean_tunneled rnd q s = elim (txid q.dns) [
    | none ↦ (s, [])
    | some id ↦
        let pkt =
          build_udp_ipv4 q.client_ip q.client_port setup.dns_remote_ip setup.dns_remote_port
            q.dns in
        elim (encrypt_packet setup.primitives setup.cipher rnd.salt setup.master_key pkt) [
          | err e ↦ (record s { pending = update s.pending id none }, [])
          | ok datagram ↦
              let (wire, obfuscator') = shape rnd.byte s.obfuscator datagram in
              (
                record s {
                  pending = update s.pending id (some (pending_of q));
                  obfuscator = obfuscator';
                },
                wire ∷ [],
              )
        ]
  ]

  unfoldable pub clear_pending : List ℕ → State → State
  clear_pending dns s = elim (txid dns) [
    | none ↦ s
    | some id ↦ record s { pending = update s.pending id none }
  ]

  -- The decision on the first A record of the domestic answer.
  unfoldable pub is_domestic : List ℕ → Bool
  is_domestic [] = true
  is_domestic (ip ∷ ips) = contains setup.chnroute ip

  -- Up to the wait for the domestic answer.
  unfoldable pub begin : Random → Plan → State → State × List (List ℕ)
  begin rnd forward s = (s, [])
  begin rnd (relay q) s = (s, [])
  begin rnd (race q) s = send_clean_tunneled rnd q s

  -- From the domestic answer on: the new state, the packets emitted, and whether the packet was taken.
  unfoldable pub finish : Plan → Option (List ℕ) → State → Outcome (State × List (List ℕ) × Bool)
  finish forward answer s = ret (s, [], false)
  finish (relay q) none s = ret (s, [], true)
  finish (relay q) (some answer) s = ret (s, response q answer ∷ [], true)
  finish (race q) none s = ret (s, [], true)
  finish (race q) (some answer) s = do
    ips ← a_records answer
    if is_domestic ips
        then ret (clear_pending q.dns s, response q answer ∷ [], true)
        else ret (s, [], true)

  -- `try_intercept` with nothing in between. The last part is what was sent through the tunnel.
  unfoldable pub try_intercept :
      Random
      → List ℕ
      → Option (List ℕ)
      → State
      → Outcome (State × List (List ℕ) × Bool × List (List ℕ))
  try_intercept rnd packet answer s = do
    plan ← classify packet
    let waiting = begin rnd plan s
    (s', emitted, taken) ← finish plan answer waiting.0
    ret (s', emitted, taken, waiting.1)

  -- `try_handle_tunneled_reply`: the new state, the packets emitted, and whether it was consumed.
  unfoldable pub try_handle_tunneled_reply : List ℕ → State → Outcome (State × List (List ℕ) × Bool)
  try_handle_tunneled_reply plaintext s =
      on_none (parse_udp_dns_query plaintext) (ret (s, [], false)) λ q.
        if not (q.server_port == dns_port) || not (q.server_ip == setup.dns_remote_ip)
        then ret (s, [], false)
        else elim (txid q.dns) [
          | none ↦ ret (s, [], false)
          | some id ↦ elim (s.pending id) [
            | none ↦ ret (s, [], false)
            | some p ↦ ret (
              record s { pending = update s.pending id none },
              build_udp_ipv4 p.server_ip p.server_port p.client_ip p.client_port q.dns ∷ [],
              true,
            )
          ]
        ]
