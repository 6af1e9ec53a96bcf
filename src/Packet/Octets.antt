-- ===== src/Packet/Octets.antt =====
-- dns_intercept.rs: what `build_udp_ipv4` writes is bytes.
use shadowvpn_ios.Prelude.{ℕ, ◌+◌, List, ◌++◌, length, All, All-append, IsByte, to_be16, arith}
use shadowvpn_ios.Packet.{
  checksum, udp_checksum, ipv4_header, udp_segment, nonzero_checksum, build_udp_ipv4,
}

ipv4_header-IsByte : (len src dst csum : ℕ) → All IsByte (ipv4_header len src dst csum)
ipv4_header-IsByte len src dst csum = omega arith

udp_segment-IsByte :
    (src dst : ℕ) (payload : List ℕ) (csum : ℕ)
    → All IsByte payload
    → All IsByte (udp_segment src dst payload csum)
udp_segment-IsByte src dst payload csum h =
    let header : List ℕ =
      to_be16 src ++ (to_be16 dst ++ (to_be16 (8 + length payload) ++ to_be16 csum)) in
    All-append IsByte header payload (omega arith) h

pub build_udp_ipv4-IsByte :
    (src_ip src_port dst_ip dst_port : ℕ) (payload : List ℕ)
    → All IsByte payload
    → All IsByte (build_udp_ipv4 src_ip src_port dst_ip dst_port payload)
unfolding build_udp_ipv4
build_udp_ipv4-IsByte src_ip src_port dst_ip dst_port payload h =
    let total = 20 + (8 + length payload) in
    let csum = checksum (ipv4_header total src_ip dst_ip 0) in
    let udp_csum =
      nonzero_checksum (udp_checksum src_ip dst_ip (udp_segment src_port dst_port payload 0)) in
    All-append IsByte (ipv4_header total src_ip dst_ip csum)
      (udp_segment src_port dst_port payload udp_csum) (ipv4_header-IsByte total src_ip dst_ip csum)
      (udp_segment-IsByte src_port dst_port payload udp_csum h)
