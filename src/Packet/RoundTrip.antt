-- ===== src/Packet/RoundTrip.antt =====
-- dns_intercept.rs: `parse_udp_dns_query` on the packets that `build_udp_ipv4` builds.
use shadowvpn_ios.Prelude.{
  ℕ, ◌+◌, ◌-◌, ◌*◌, ◌/◌, ◌%◌, ◌^◌, ◌≤◌, ◌<◌, ◌≡◌, ◌≢◌, refl, ◌∙◌, List, ◌++◌, length, be16, arith,
  take-length,
}
use shadowvpn_ios.Prelude.Outcome.{ret, nothing, index}
use shadowvpn_ios.Packet.{
  ipv4_header, udp_segment, udp_header, dns_port, build_udp_ipv4, be16_at, ipv4_at, parse_udp,
  parse_udp_dns_query,
}

be16-to_be16 : (n : ℕ) → n < 2 ^ 16 → be16 (n / 256 % 256) (n % 256) ≡ n
be16-to_be16 n h = omega arith

ipv4-octets :
    (ip : ℕ)
    → ip < 2 ^ 32
    → be16 (ip / 2 ^ 24 % 256) (ip / 2 ^ 16 % 256) * 2 ^ 16 + be16 (ip / 2 ^ 8 % 256) (ip % 256)
      ≡ ip
ipv4-octets ip h = omega arith

module _ (total src dst csum sport dport ucsum : ℕ) (payload : List ℕ) where
  packet : List ℕ
  packet = ipv4_header total src dst csum ++ udp_segment sport dport payload ucsum

  -- The IPv4 part of the parser on such a packet.
  parse_header :
      src < 2 ^ 32 → dst < 2 ^ 32 → parse_udp_dns_query packet ≡ parse_udp packet 20 src dst
  unfolding parse_udp_dns_query packet index be16_at ipv4_at
  parse_header hs hd = ground (arith, ipv4-octets src hs, ipv4-octets dst hd)

  parse_segment :
      sport < 2 ^ 16
      → dport ≡ dns_port
      → 1 ≤ length payload
      → length payload ≤ 65507
      → parse_udp packet 20 src dst
        ≡ ret (record {
          client_ip = src;
          client_port = sport;
          server_ip = dst;
          server_port = dport;
          dns = payload;
        })
  unfolding parse_udp packet index be16_at
  parse_segment hs hd lo hi =
      let len = udp_header + length payload in
      let whole = be16-to_be16 len (omega arith) in
      ground (
        arith,
        whole,
        be16-to_be16 sport hs,
        be16-to_be16 dport (omega arith),
        take-length (be16 (len / 256 % 256) (len % 256) - udp_header) payload (omega arith),
      )

  parse_other_port : dport < 2 ^ 16 → dport ≢ dns_port → parse_udp packet 20 src dst ≡ nothing
  unfolding parse_udp packet index be16_at
  parse_other_port hp hd = ground (arith, be16-to_be16 dport hp)

-- A packet that `build_udp_ipv4` builds to port 53 parses back to its addresses, ports and payload, for
-- every payload of 1 to 65507 bytes and addresses and ports in range.
pub parse-build :
    (src sport dst : ℕ) (payload : List ℕ)
    → src < 2 ^ 32
    → sport < 2 ^ 16
    → dst < 2 ^ 32
    → 1 ≤ length payload
    → length payload ≤ 65507
    → parse_udp_dns_query (build_udp_ipv4 src sport dst dns_port payload)
      ≡ ret (record {
        client_ip = src;
        client_port = sport;
        server_ip = dst;
        server_port = dns_port;
        dns = payload;
      })
parse-build src sport dst payload hs hp hd lo hi =
    unfold build_udp_ipv4 packet in
    (parse_header (20 + (8 + length payload)) src dst _ sport dns_port _ payload hs hd
      ∙ parse_segment (20 + (8 + length payload)) src dst _ sport dns_port _ payload hp refl lo hi)

-- A packet to any other port is no DNS query to the parser.
pub parse-build_other :
    (src sport dst dport : ℕ) (payload : List ℕ)
    → src < 2 ^ 32
    → dst < 2 ^ 32
    → dport < 2 ^ 16
    → dport ≢ dns_port
    → parse_udp_dns_query (build_udp_ipv4 src sport dst dport payload) ≡ nothing
parse-build_other src sport dst dport payload hs hd hp ne =
    unfold build_udp_ipv4 packet in
    (parse_header (20 + (8 + length payload)) src dst _ sport dport _ payload hs hd
      ∙ parse_other_port (20 + (8 + length payload)) src dst _ sport dport _ payload hp ne)
