-- ===== src/Engine/Lookup.antt =====
-- engine.rs with dns_intercept.rs: a client's query from the ingress loop of an end with an interceptor
-- to the egress loop of the server's end.
mod Tests
use shadowvpn_ios.Prelude.{
  ℕ, ◌+◌, ◌≤◌, ◌<◌, ◌≡◌, ◌≢◌, refl, ◌∙◌, Bool, true, false, none, some, List, [], ◌∷◌, ◌++◌, length,
  All, IsByte, Bool-cases, inl, inr, if◌then◌else◌, ltb, get_or, arith,
}
use shadowvpn_ios.Prelude.Outcome.{ret, ◌>>=◌, Safe, discard-Safe}
use shadowvpn_ios.Prelude.Result.{ok}
use shadowvpn_ios.Crypto.{PrimitiveLaws, encrypt_packet}
use shadowvpn_ios.Crypto.Envelope.{decrypt-encrypt, encrypt_packet-IsByte, key_len_bounds}
use shadowvpn_ios.Dns.Message.{Message, IsMessage, message_wire, addresses}
use shadowvpn_ios.Dns.Message.Answers.{a_records-message}
use shadowvpn_ios.Dns.Queries.{build_query-IsByte}
use shadowvpn_ios.Packet.{build_udp_ipv4}
use shadowvpn_ios.Packet.Octets.{build_udp_ipv4-IsByte}
use shadowvpn_ios.Inspect.{describe}
use shadowvpn_ios.Inspect.Tls.{describe-Safe}
use shadowvpn_ios.Intercept.{Setup, State, Random, response, is_domestic}
use shadowvpn_ios.Intercept.Branches.{waiting, wire, clear}
use shadowvpn_ios.Intercept.Resolved.{
  Asking, IsAsking, query_bytes, query_packet, parsed_query, clean_packet, length-clean_packet,
  resolved, takes_first,
}
use shadowvpn_ios.Engine.{
  Link, Plane, add64, ingress_round, deliver, egress_round, intercept, consume,
}
use shadowvpn_ios.Engine.Tunnel.{Matches, unshape-shape, recv_whole, egress_opened}
use shadowvpn_ios.Engine.Stream.{IsRandom, IsCarrier}
use shadowvpn_ios.Engine.Stream.Carried.{shape_fits}

-- The session of an interceptor, and the server's end.
abbrev pub client_end : Setup → Link
client_end setup = record {
  primitives = setup.primitives;
  cipher = setup.cipher;
  master_key = setup.master_key;
  interceptor = some setup;
}

abbrev pub server_end : Setup → Link
server_end setup = record (client_end setup) { interceptor = none }

describe_query-Safe : (a : Asking) → Safe (describe (query_packet a))
describe_query-Safe a = describe-Safe (query_packet a) (unfold build_udp_ipv4 in omega arith)

-- The state once the domestic answer with these addresses is there, and what is emitted.
abbrev pub settled : Setup → Random → State → Asking → List ℕ → List ℕ → State
settled setup rnd s a ips datagram =
    let pending = waiting rnd s (parsed_query a) a.id datagram in
    if is_domestic setup ips then clear a.id pending else pending

abbrev pub answered : Setup → Asking → List ℕ → List ℕ → List (List ℕ)
answered setup a ips answer =
    if is_domestic setup ips then response (parsed_query a) answer ∷ [] else []

resolved-settled :
    (setup : Setup) (rnd : Random) (s : State) (a : Asking) (ips answer datagram : List ℕ)
    → resolved setup rnd s a ips answer datagram ≡ (
      settled setup rnd s a ips datagram,
      answered setup a ips answer,
      true,
      wire rnd s datagram ∷ [],
    )
resolved-settled setup rnd s a ips answer datagram = elim (Bool-cases (is_domestic setup ips)) [
  | inl e ↦ rw e refl
  | inr e ↦ rw e refl
]

-- A packet that no interceptor takes is handed to Swift.
deliver_plain :
    (link : Link) (pkt : List ℕ) (d : Plane)
    → link.interceptor ≡ none
    → 20 ≤ length pkt
    → deliver link pkt d
      ≡ ret (record {
        plane = record d { down_bytes = add64 d.down_bytes (length pkt) };
        emitted = pkt ∷ [];
        sent = [];
        goes_on = true;
      })
unfolding deliver consume
deliver_plain link pkt d e long = ground (arith, e)

module _ (setup : Setup) (laws : PrimitiveLaws setup.primitives) (a : Asking) (v : IsAsking a)
    (short : length (query_bytes a) ≤ 39000) (rnd : Random)
    (random : IsRandom (client_end setup) rnd) (dn df : Plane) (c : IsCarrier dn.shared.obfuscator)
    (m : Matches dn.shared.obfuscator df.shared.obfuscator) where
  -- The clean copy, sealed, and what the server's end makes of it on the wire.
  crosses :
      (datagram : List ℕ) × (encrypt_packet setup.primitives setup.cipher rnd.salt setup.master_key
          (clean_packet setup a)
        ≡ ok datagram)
      × (egress_round (server_end setup) (wire rnd dn.shared datagram) df
          ≡ ret (record {
            plane = record df { down_bytes = add64 df.down_bytes (length (clean_packet setup a)) };
            emitted = clean_packet setup a ∷ [];
            sent = [];
            goes_on = true;
          }))
  unfolding IsRandom
  crosses =
      let (salt, bytes, byte) = random in
      let pkt = clean_packet setup a in
      let far = server_end setup in
      let o = dn.shared.obfuscator in
      let size = length-clean_packet setup a in
      let (datagram, sealed, len, _, opened) =
        decrypt-encrypt setup.primitives laws setup.cipher rnd.salt setup.master_key pkt salt
          (omega (arith, size)) in
      let plain : All IsByte pkt =
        build_udp_ipv4-IsByte a.client_ip a.client_port setup.dns_remote_ip setup.dns_remote_port
          (query_bytes a) (build_query-IsByte a.id a.label a.labels v.labels_ok) in
      let wire_bytes =
        encrypt_packet-IsByte setup.primitives laws setup.cipher rnd.salt setup.master_key pkt
          datagram bytes plain sealed in
      let fits =
        shape_fits rnd.byte o datagram c wire_bytes
          (omega (arith, len, size, key_len_bounds setup.cipher)) in
      (
        datagram,
        sealed,
        egress_opened far (wire rnd dn.shared datagram) datagram pkt df
              (recv_whole far (wire rnd dn.shared datagram) fits)
              (unshape-shape far rnd.byte o df.shared.obfuscator datagram byte wire_bytes m) opened
            ∙ deliver_plain far pkt df refl (omega (arith, size)),
      )

  -- A client's query for a name of allowed labels, of at most 39000 bytes, and a domestic answer that
  -- keeps to the wire format: the ingress round sends one datagram and counts no byte for it, and the
  -- server's end hands the clean copy of the query, for the remote resolver, to its network. Where the
  -- answer's A records are none or the first of them is in the route table, the round emits the answer
  -- to the client and the query is pending no more; else it emits nothing and the query stays pending.
  -- The ends share cipher, key and shaping.
  pub query_crosses :
      (message : Message) (rest : List ℕ) (unused : Random) (sends : Bool)
      → IsMessage message
      → let answer = message_wire message ++ rest in
        let ips = addresses message.answers in
        (datagram : List ℕ) × (ingress_round
            (client_end setup)
            rnd
            (some answer)
            unused
            sends
            (query_packet a)
            dn
          ≡ ret (record {
            plane = record dn { shared = settled setup rnd dn.shared a ips datagram };
            emitted = answered setup a ips answer;
            sent = wire rnd dn.shared datagram ∷ [];
            goes_on = true;
          }))
        × (egress_round (server_end setup) (wire rnd dn.shared datagram) df
            ≡ ret (record {
              plane = record df {
                down_bytes = add64 df.down_bytes (length (clean_packet setup a));
              };
              emitted = clean_packet setup a ∷ [];
              sent = [];
              goes_on = true;
            }))
  unfolding ingress_round intercept
  query_crosses message rest unused sends w =
      let answer = message_wire message ++ rest in
      let ips = addresses message.answers in
      let (datagram, sealed, arrives) = crosses in
      let taken =
        takes_first setup rnd dn.shared a v datagram answer sealed ips
          (a_records-message message rest w) in
      (
        datagram,
        rw (discard-Safe (describe (query_packet a)) (describe_query-Safe a), ◌>>=◌)
            (rw (taken, resolved-settled setup rnd dn.shared a ips answer datagram, ◌>>=◌) refl),
        arrives,
      )
