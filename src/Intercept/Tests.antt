-- ===== src/Intercept/Tests.antt =====
-- The properties at a concrete query, over the toy primitives.
use shadowvpn_ios.Prelude.{
  ℕ, ◌≡◌, refl, inl, true, false, none, some, List, [], ◌∷◌, replicate, All, arith,
}
use shadowvpn_ios.Prelude.Outcome.{ret, nothing, Safe}
use shadowvpn_ios.Prelude.Result.{ok}
use shadowvpn_ios.Chnroute.{ChnRoute}
use shadowvpn_ios.Chnroute.Samples.{abroad, home}
use shadowvpn_ios.Crypto.{aes128_gcm, encrypt_packet}
use shadowvpn_ios.Crypto.Envelope.{decrypt-encrypt}
use shadowvpn_ios.Crypto.Toy.{toy, toy_laws}
use shadowvpn_ios.Dns.Samples.{query, aaaa_query, aaaa_runs, response}
use shadowvpn_ios.Packet.{ParsedQuery, build_udp_ipv4, parse_udp_dns_query, txid}
use shadowvpn_ios.Packet.RoundTrip.{parse-build, parse-build_other}
use shadowvpn_ios.Intercept.{
  Setup, State, Random, pending_of, response as emitted_response, try_intercept,
  try_handle_tunneled_reply,
}
use shadowvpn_ios.Intercept.Branches.{try_intercept-Safe, try_intercept_forward, waiting, clear}
use shadowvpn_ios.Intercept.{relay, classify, begin, finish}
use shadowvpn_ios.Intercept.History.{World, fresh, takes, answers, Reachable, start, next}
use shadowvpn_ios.Intercept.History.Handlers.{IsAnswer, IsKnown}
use shadowvpn_ios.Intercept.History.Clients.{emitted-IsAnswer}
use shadowvpn_ios.Intercept.Replies.{query_to_remote_consumed}

abbrev with_table : ChnRoute → Setup
with_table table = record {
  primitives = toy;
  chnroute = table;
  dns_remote_ip = 0x08080808;
  dns_remote_port = 53;
  cipher = aes128_gcm;
  master_key = replicate 16 1;
}

abbrev rnd : Random
rnd = record { salt = replicate 16 9; byte = 5 }

abbrev idle : State
idle = record { pending = λ id. none; obfuscator = none }

abbrev asked : ParsedQuery
asked = record {
  client_ip = 0x0A000002;
  client_port = 5353;
  server_ip = 0x0A000001;
  server_port = 53;
  dns = query;
}

abbrev packet : List ℕ
packet = build_udp_ipv4 0x0A000002 5353 0x0A000001 53 query

parsed : parse_udp_dns_query packet ≡ ret asked
parsed =
    parse-build 0x0A000002 5353 0x0A000001 query (omega arith) (omega arith) (omega arith)
      (omega arith) (omega arith)

-- The clean copy, sealed.
abbrev clean : List ℕ
clean = build_udp_ipv4 0x0A000002 5353 0x08080808 53 query

sealing :
    (datagram : List ℕ) × (encrypt_packet toy aes128_gcm (replicate 16 9) (replicate 16 1) clean
      ≡ ok datagram)
sealing =
    let (d, e, _, _, _) =
      decrypt-encrypt toy toy_laws aes128_gcm (replicate 16 9) (replicate 16 1) clean refl
        (unfold build_udp_ipv4 in omega arith) in
    (d, e)

known : txid query ≡ some 0x1234
known = unfold txid in refl

-- While the domestic answer is awaited.
abbrev before : State
before = waiting rnd idle asked 0x1234 sealing.0

try_intercept-Safe_example : Safe (try_intercept (with_table home) rnd packet (some response) idle)
try_intercept-Safe_example = try_intercept-Safe (with_table home) rnd packet (some response) idle

-- A query for AAAA.
abbrev aaaa : ParsedQuery
aaaa = record asked { dns = aaaa_query }

abbrev aaaa_packet : List ℕ
aaaa_packet = build_udp_ipv4 0x0A000002 5353 0x0A000001 53 aaaa_query

aaaa_parsed : parse_udp_dns_query aaaa_packet ≡ ret aaaa
aaaa_parsed =
    parse-build 0x0A000002 5353 0x0A000001 aaaa_query (omega arith) (omega arith) (omega arith)
      (omega arith) (omega arith)

abbrev web_packet : List ℕ
web_packet = build_udp_ipv4 0x0A000002 5353 0x0A000001 443 query

web_parsed : parse_udp_dns_query web_packet ≡ nothing
web_parsed =
    parse-build_other 0x0A000002 5353 0x0A000001 443 query (omega arith) (omega arith) (omega arith)
      (omega arith)

try_intercept_forward_example :
    try_intercept (with_table home) rnd web_packet (some response) idle ≡ ret (idle, [], false, [])
try_intercept_forward_example =
    try_intercept_forward (with_table home) rnd web_packet idle (some response) (inl web_parsed)

query_to_remote_consumed_example :
    try_handle_tunneled_reply
      (with_table abroad)
      (build_udp_ipv4 0x0A000002 5353 0x08080808 53 query)
      before
    ≡ ret (clear 0x1234 before, build_udp_ipv4 0x0A000001 53 0x0A000002 5353 query ∷ [], true)
unfolding pending_of
query_to_remote_consumed_example =
    query_to_remote_consumed (with_table abroad) 0x0A000002 5353 query before 0x1234
      (pending_of asked) (omega arith) (omega arith) (omega arith) (omega arith) known refl

-- The query for AAAA is taken and the domestic resolver answers it.
abbrev pending_world : World
pending_world = record (fresh none) { waiting = relay aaaa ∷ []; asked = aaaa ∷ [] }

abbrev answered : World
answered = record pending_world { waiting = []; emitted = emitted_response aaaa response ∷ [] }

is_relay : classify aaaa_packet ≡ ret (relay aaaa)
unfolding classify
is_relay = rw (aaaa_parsed, aaaa_runs) refl

history : Reachable (with_table home) answered
unfolding begin finish
history =
    next {w = pending_world} {w' = answered}
      (next {w = fresh none} {w' = pending_world} (start none)
        (takes rnd aaaa_packet (relay aaaa) is_relay refl))
      (answers (relay aaaa) [] [] (some response) pending_world.shared
        (emitted_response aaaa response ∷ []) true refl refl refl)

emitted-IsAnswer_example :
    All (IsAnswer answered.asked) answered.emitted × IsKnown answered.asked answered.shared
emitted-IsAnswer_example = emitted-IsAnswer (with_table home) answered history
