-- ===== src/Packet/Safety.antt =====
-- dns_intercept.rs: the indexing of `parse_udp_dns_query`.
use shadowvpn_ios.Prelude.{
  ℕ, ◌+◌, ◌-◌, ◌*◌, ◌/◌, ◌^◌, ◌≤◌, ◌<◌, ◌≡◌, List, length, take, drop, arith, ltb, ◌==◌, not, ◌||◌,
  bit_and, be16, length-drop,
}
use shadowvpn_ios.Prelude.Outcome.{
  Outcome, ret, ◌>>=◌, index-lt, Safe, ret-Safe, nothing-Safe, if-Safe, index-Safe, index, Returns,
  if-Returns, bind-Returns, ret-Returns, nothing-Returns,
}
use shadowvpn_ios.Packet.{
  ParsedQuery, udp_header, dns_port, ipv4_min_header, ipproto_udp, be16_at, ipv4_at, parse_udp,
  parse_udp_dns_query,
}

be16_at-Safe {ℓ} :
    {A : Type ℓ} (b : List ℕ) (i : ℕ) {f : ℕ → Outcome A}
    → i + 1 < length b
    → ((n : ℕ) → Safe (f n))
    → Safe (be16_at b i >>= f)
unfolding be16_at
be16_at-Safe b i {f} h k =
    let (hi, p) = index-lt b i (omega arith) in
    let (lo, q) = index-lt b (i + 1) h in rw (p, q) (k (be16 hi lo))

ipv4_at-Safe {ℓ} :
    {A : Type ℓ} (b : List ℕ) (i : ℕ) {f : ℕ → Outcome A}
    → i + 3 < length b
    → ((n : ℕ) → Safe (f n))
    → Safe (ipv4_at b i >>= f)
unfolding ipv4_at be16_at
ipv4_at-Safe b i {f} h k =
    let (p0, e0) = index-lt b i (omega arith) in
    let (p1, e1) = index-lt b (i + 1) (omega arith) in
    let (p2, e2) = index-lt b (i + 2) (omega arith) in
    let (p3, e3) = index-lt b (i + 2 + 1) (omega arith) in
    rw (e0, e1, e2, e3) (k (be16 p0 p1 * 2 ^ 16 + be16 p2 p3))

parse_udp-Safe :
    (pkt : List ℕ) (ihl src_ip dst_ip : ℕ)
    → ihl + udp_header ≤ length pkt
    → Safe (parse_udp pkt ihl src_ip dst_ip)
unfolding parse_udp
parse_udp-Safe pkt ihl src_ip dst_ip h =
    let udp = drop ihl pkt in
    let size = length-drop ihl pkt in
    be16_at-Safe udp 0 (omega arith) λ src_port. be16_at-Safe udp 2 (omega arith) λ dst_port.
      if-Safe (not (dst_port == dns_port)) (λ _. nothing-Safe)
        λ _. be16_at-Safe udp 4 (omega arith) λ udp_len.
          if-Safe (ltb udp_len udp_header || ltb (length pkt) (ihl + udp_len)) (λ _. nothing-Safe)
            λ _.
              if-Safe (length (take (udp_len - udp_header) (drop udp_header udp)) == 0)
                (λ _. nothing-Safe) (λ _. ret-Safe _)

-- No byte string, IPv4 packet or not, makes `parse_udp_dns_query` index outside the packet.
pub parse_udp_dns_query-Safe : (pkt : List ℕ) → Safe (parse_udp_dns_query pkt)
unfolding parse_udp_dns_query
parse_udp_dns_query-Safe pkt =
    if-Safe (ltb (length pkt) ipv4_min_header) (λ _. nothing-Safe)
      λ long. index-Safe pkt 0 (ground arith) λ first.
        let ihl = bit_and first 0x0f * 4 in
        if-Safe (not (first / 16 == 4)) (λ _. nothing-Safe)
          λ _.
            if-Safe (ltb ihl ipv4_min_header || ltb (length pkt) (ihl + udp_header))
              (λ _. nothing-Safe)
              λ fits. index-Safe pkt 9 (ground arith) λ protocol.
                be16_at-Safe pkt 6 (ground arith) λ flags_frag.
                  if-Safe (not (protocol == ipproto_udp)) (λ _. nothing-Safe)
                    λ _.
                      if-Safe
                        (not (bit_and flags_frag 0x2000 == 0)
                          || not (bit_and flags_frag 0x1fff == 0))
                        (λ _. nothing-Safe)
                        λ _. ipv4_at-Safe pkt 12 (ground arith) λ src_ip.
                          ipv4_at-Safe pkt 16 (ground arith)
                            λ dst_ip. parse_udp-Safe pkt ihl src_ip dst_ip (ground arith)

abbrev IsToDns : ParsedQuery → Type 0
IsToDns q = (q.server_port ≡ dns_port) × (1 ≤ length q.dns)

parse_udp-Returns :
    (pkt : List ℕ) (ihl src_ip dst_ip : ℕ) → Returns IsToDns (parse_udp pkt ihl src_ip dst_ip)
unfolding parse_udp
parse_udp-Returns pkt ihl src_ip dst_ip =
    let udp = drop ihl pkt in
    bind-Returns IsToDns (be16_at udp 0) λ src_port _.
      bind-Returns IsToDns (be16_at udp 2) λ dst_port _.
        if-Returns IsToDns (not (dst_port == dns_port)) (λ _. nothing-Returns IsToDns)
          λ port. bind-Returns IsToDns (be16_at udp 4) λ udp_len _.
            if-Returns IsToDns (ltb udp_len udp_header || ltb (length pkt) (ihl + udp_len))
              (λ _. nothing-Returns IsToDns)
              λ _.
                if-Returns IsToDns (length (take (udp_len - udp_header) (drop udp_header udp)) == 0)
                  (λ _. nothing-Returns IsToDns)
                  (λ full. ret-Returns IsToDns _ (ground arith, ground arith))

parse-Returns : (pkt : List ℕ) → Returns IsToDns (parse_udp_dns_query pkt)
unfolding parse_udp_dns_query
parse-Returns pkt =
    if-Returns IsToDns (ltb (length pkt) ipv4_min_header) (λ _. nothing-Returns IsToDns)
      λ _. bind-Returns IsToDns (index pkt 0) λ first _.
        let ihl = bit_and first 0x0f * 4 in
        if-Returns IsToDns (not (first / 16 == 4)) (λ _. nothing-Returns IsToDns)
          λ _.
            if-Returns IsToDns (ltb ihl ipv4_min_header || ltb (length pkt) (ihl + udp_header))
              (λ _. nothing-Returns IsToDns)
              λ _. bind-Returns IsToDns (index pkt 9) λ protocol _.
                bind-Returns IsToDns (be16_at pkt 6) λ flags_frag _.
                  if-Returns IsToDns (not (protocol == ipproto_udp)) (λ _. nothing-Returns IsToDns)
                    λ _.
                      if-Returns IsToDns
                        (not (bit_and flags_frag 0x2000 == 0)
                          || not (bit_and flags_frag 0x1fff == 0))
                        (λ _. nothing-Returns IsToDns)
                        λ _. bind-Returns IsToDns (ipv4_at pkt 12) λ src_ip _.
                          bind-Returns IsToDns (ipv4_at pkt 16)
                            λ dst_ip _. parse_udp-Returns pkt ihl src_ip dst_ip

-- Whatever the parser accepts is addressed to port 53 and carries a payload.
pub parse_to_dns :
    (pkt : List ℕ) (q : ParsedQuery)
    → parse_udp_dns_query pkt ≡ ret q
    → (q.server_port ≡ dns_port) × (1 ≤ length q.dns)
parse_to_dns pkt q h = parse-Returns pkt q h
