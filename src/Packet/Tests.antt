-- ===== src/Packet/Tests.antt =====
-- The properties at concrete packets.
use shadowvpn_ios.Prelude.{ℕ, ◌<◌, ◌%◌, ◌^◌, ◌≡◌, ◌≢◌, ◌⊎◌, List, [], ◌∷◌, ◌++◌, take, drop, arith}
use shadowvpn_ios.Prelude.Outcome.{ret, nothing}
use shadowvpn_ios.Packet.{fold_carries, build_udp_ipv4, parse_udp_dns_query}
use shadowvpn_ios.Packet.Checksum.{fold_carries_lem, words, pseudo_header, build_udp_ipv4-checksums}
use shadowvpn_ios.Packet.RoundTrip.{parse-build, parse-build_other}

abbrev payload : List ℕ
payload = 0x12 ∷ 0x34 ∷ 0xFF ∷ []

abbrev sum : ℕ
sum = 0x0003FFFE

fold_carries_lem_example :
    (fold_carries 3 sum < 2 ^ 16)
    × (fold_carries 3 sum % 65535 ≡ sum % 65535)
    × ((sum ≡ 0) ⊎ (0 < fold_carries 3 sum))
fold_carries_lem_example = fold_carries_lem sum (omega arith)

build_udp_ipv4-checksums_example :
    let packet = build_udp_ipv4 1 5353 2 53 payload in
    (words (take 20 packet) % 65535 ≡ 0)
    × (words (pseudo_header 1 2 11 ++ drop 20 packet) % 65535 ≡ 0)
    × (words (take 2 (drop 26 packet)) ≢ 0)
build_udp_ipv4-checksums_example =
    build_udp_ipv4-checksums 1 5353 2 53 payload (omega arith) (omega arith) (omega arith)
      (omega arith)

parse-build_example :
    parse_udp_dns_query (build_udp_ipv4 0x0A000002 5353 0x08080808 53 payload)
    ≡ ret (record {
      client_ip = 0x0A000002;
      client_port = 5353;
      server_ip = 0x08080808;
      server_port = 53;
      dns = payload;
    })
parse-build_example =
    parse-build 0x0A000002 5353 0x08080808 payload (omega arith) (omega arith) (omega arith)
      (omega arith) (omega arith)

parse-build_other_example :
    parse_udp_dns_query (build_udp_ipv4 0x08080808 53 0x0A000002 5353 payload) ≡ nothing
parse-build_other_example =
    parse-build_other 0x08080808 53 0x0A000002 5353 payload (omega arith) (omega arith)
      (omega arith) (omega arith)
