-- ===== src/Intercept/Resolved.antt =====
-- dns_intercept.rs: `try_intercept` from packet to packet, where the query and the domestic answer keep
-- to the DNS wire format.
use shadowvpn_ios.Prelude.{
  ℕ, ◌+◌, ◌^◌, ◌≤◌, ◌<◌, ◌≡◌, refl, ap, ◌∙◌, Bool, true, some, List, [], ◌∷◌, ◌++◌, length, All,
  be16-to_be16, arith, inl, inr, Bool-cases, if◌then◌else◌,
}
use shadowvpn_ios.Prelude.Outcome.{ret}
use shadowvpn_ios.Prelude.Result.{ok}
use shadowvpn_ios.Crypto.{PrimitiveLaws, salt_len, encrypt_packet, decrypt_packet}
use shadowvpn_ios.Crypto.Envelope.{decrypt-encrypt}
use shadowvpn_ios.Dns.{build_query, join, a_records}
use shadowvpn_ios.Dns.Labels.{IsLabel}
use shadowvpn_ios.Dns.RoundTrip.{question-build_query}
use shadowvpn_ios.Dns.Message.{Message, IsMessage, message_wire, addresses}
use shadowvpn_ios.Dns.Message.Answers.{a_records-message}
use shadowvpn_ios.Chnroute.{contains}
use shadowvpn_ios.Packet.{ParsedQuery, parse_udp_dns_query, txid, build_udp_ipv4}
use shadowvpn_ios.Packet.RoundTrip.{parse-build}
use shadowvpn_ios.Intercept.{Setup, State, Random, response, is_domestic, try_intercept}
use shadowvpn_ios.Intercept.Branches.{
  waiting, wire, clear, try_intercept_foreign, try_intercept_domestic,
}

-- A query of a client for a name, given by its labels.
pub record Asking : Type 0 where
  pub client_ip : ℕ
  pub client_port : ℕ
  pub server_ip : ℕ
  pub id : ℕ
  pub label : List ℕ
  pub labels : List (List ℕ)

abbrev pub query_bytes : Asking → List ℕ
query_bytes a = build_query a.id (join (a.label ∷ a.labels))

abbrev pub query_packet : Asking → List ℕ
query_packet a = build_udp_ipv4 a.client_ip a.client_port a.server_ip 53 (query_bytes a)

abbrev pub parsed_query : Asking → ParsedQuery
parsed_query a = record {
  client_ip = a.client_ip;
  client_port = a.client_port;
  server_ip = a.server_ip;
  server_port = 53;
  dns = query_bytes a;
}

pub record IsAsking (a : Asking) : Type 0 where
  pub client_ip_ok : a.client_ip < 2 ^ 32
  pub client_port_ok : a.client_port < 2 ^ 16
  pub server_ip_ok : a.server_ip < 2 ^ 32
  pub id_ok : a.id < 65536
  pub labels_ok : All IsLabel (a.label ∷ a.labels)
  pub len_ok : length (query_bytes a) ≤ 65507

txid-query : (a : Asking) → IsAsking a → txid (query_bytes a) ≡ some a.id
unfolding txid build_query
txid-query a v = ap some (be16-to_be16 a.id v.id_ok)

-- The clean copy of the query, that goes to the remote resolver.
abbrev pub clean_packet : Setup → Asking → List ℕ
clean_packet setup a =
    build_udp_ipv4 a.client_ip a.client_port setup.dns_remote_ip setup.dns_remote_port
      (query_bytes a)

pub length-clean_packet :
    (setup : Setup) (a : Asking) → length (clean_packet setup a) ≡ 28 + length (query_bytes a)
length-clean_packet setup a = unfold build_udp_ipv4 in omega arith

query_pos : (a : Asking) → 1 ≤ length (query_bytes a)
unfolding build_query
query_pos a = omega arith

-- The state, the emitted packets, the verdict and what went down the tunnel.
abbrev pub Result : Type 0
Result = State × List (List ℕ) × Bool × List (List ℕ)

-- What `try_intercept` returns for a query, by the addresses of its domestic answer and the sealed
-- clean copy.
abbrev pub resolved : Setup → Random → State → Asking → List ℕ → List ℕ → List ℕ → Result
resolved setup rnd s a ips answer datagram =
    let q = parsed_query a in
    let sent = wire rnd s datagram ∷ [] in
    let pending = waiting rnd s q a.id datagram in
    if is_domestic setup ips
    then (clear a.id pending, response q answer ∷ [], true, sent)
    else (pending, [], true, sent)

module _ (setup : Setup) (rnd : Random) (s : State) (a : Asking) (v : IsAsking a)
    (datagram answer : List ℕ)
    (sealed : encrypt_packet setup.primitives setup.cipher rnd.salt setup.master_key
        (clean_packet setup a)
      ≡ ok datagram) where
  parsed : parse_udp_dns_query (query_packet a) ≡ ret (parsed_query a)
  parsed =
      parse-build a.client_ip a.client_port a.server_ip (query_bytes a) v.client_ip_ok
        v.client_port_ok v.server_ip_ok (query_pos a) v.len_ok

  takes_domestic :
      (ips : List ℕ)
      → a_records answer ≡ ret ips
      → is_domestic setup ips ≡ true
      → try_intercept setup rnd (query_packet a) (some answer) s
        ≡ ret (resolved setup rnd s a ips answer datagram)
  takes_domestic ips got h =
      try_intercept_domestic setup rnd (query_packet a) s (parsed_query a) _ parsed
        (question-build_query a.id a.label a.labels v.labels_ok) a.id (txid-query a v) datagram
        sealed answer ips got h
      ∙ rw h refl

  pub takes_first :
      (ips : List ℕ)
      → a_records answer ≡ ret ips
      → try_intercept setup rnd (query_packet a) (some answer) s
        ≡ ret (resolved setup rnd s a ips answer datagram)
  unfolding is_domestic
  takes_first [] got = takes_domestic [] got refl
  takes_first (ip ∷ ips) got = elim (Bool-cases (contains setup.chnroute ip)) [
    | inl inside ↦ takes_domestic (ip ∷ ips) got inside
    | inr outside ↦
        try_intercept_foreign setup rnd (query_packet a) s (parsed_query a) _ parsed
          (question-build_query a.id a.label a.labels v.labels_ok) a.id (txid-query a v) datagram
          sealed answer ip ips got outside
        ∙ rw outside refl
  ]

-- For a client's query of allowed labels and a domestic answer that keeps to the wire format: the clean
-- copy, which the server decrypts to the query for the remote resolver, goes down the tunnel. Where the
-- answer's A records are none or the first of them is in the route table, the answer is emitted and
-- the query is pending no more; else nothing is emitted and the query stays pending.
try_intercept-query :
    (setup : Setup) (laws : PrimitiveLaws setup.primitives) (rnd : Random) (s : State) (a : Asking)
    (m : Message) (rest : List ℕ)
    → IsAsking a
    → IsMessage m
    → length rnd.salt ≡ salt_len setup.cipher
    → let answer = message_wire m ++ rest in
      (datagram : List ℕ) × (decrypt_packet setup.primitives setup.cipher setup.master_key datagram
        ≡ ok (clean_packet setup a))
      × (try_intercept setup rnd (query_packet a) (some answer) s
          ≡ ret (resolved setup rnd s a (addresses m.answers) answer datagram))
try_intercept-query setup laws rnd s a m rest v w salt =
    let (datagram, sealed, _, _, opened) =
      decrypt-encrypt setup.primitives laws setup.cipher rnd.salt setup.master_key
        (clean_packet setup a) salt (omega (arith, length-clean_packet setup a, v.len_ok)) in
    (
      datagram,
      opened,
      takes_first setup rnd s a v datagram (message_wire m ++ rest) sealed (addresses m.answers)
          (a_records-message m rest w),
    )
