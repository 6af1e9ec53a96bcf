-- ===== src/Packet/Checksum.antt =====
-- dns_intercept.rs: the one's-complement checksums of the packets that `build_udp_ipv4` writes.
use shadowvpn_ios.Prelude.{
  ℕ, ◌+◌, ◌-◌, ◌*◌, ◌/◌, ◌%◌, ◌^◌, ◌≤◌, ◌<◌, ◌≡◌, ◌≢◌, ap, ◌∙◌, List, [], ◌∷◌, length, be16, All,
  IsByte, arith, inl, ◌⊎◌, take, drop, ◌++◌, to_be16,
}
use shadowvpn_ios.Packet.{
  add32, sum_words, fold_carries, finish_sum, checksum, pseudo_sum, udp_checksum, ipv4_header,
  udp_segment, nonzero_checksum, octets, build_udp_ipv4,
}

-- Carrying keeps the sum modulo 65535, ends below 65536, and gives 0 only for 0.
pub fold_carries_lem :
    (sum : ℕ)
    → sum < 2 ^ 32
    → (fold_carries 3 sum < 2 ^ 16)
      × (fold_carries 3 sum % 65535 ≡ sum % 65535)
      × ((sum ≡ 0) ⊎ (0 < fold_carries 3 sum))
unfolding fold_carries
fold_carries_lem sum h = ground arith

-- The sum of the 16-bit words, big-endian, an odd last byte in front, without any wrap-around. By RFC 1071 a
-- checksum is right where this is a multiple of 65535 and not 0.
unfoldable pub words : List ℕ → ℕ
words [] = 0
words (last ∷ []) = last * 256
words (hi ∷ lo ∷ rest) = be16 hi lo + words rest

words-le : (b : List ℕ) → All IsByte b → words b ≤ 65535 * ((length b + 1) / 2)
unfolding words
words-le [] h = omega arith
words-le (last ∷ []) (h, _) = omega arith
words-le (hi ∷ lo ∷ rest) (h, (l, r)) = omega (arith, words-le rest r)

sum_words-words : (b : List ℕ) (sum : ℕ) → sum + words b < 2 ^ 32 → sum_words b sum ≡ sum + words b
unfolding sum_words words
sum_words-words [] sum h = omega arith
sum_words-words (last ∷ []) sum h = omega arith
sum_words-words (hi ∷ lo ∷ rest) sum h =
    sum_words-words rest (add32 sum (be16 hi lo)) (omega arith) ∙ omega arith

finish_sum-lt : (sum : ℕ) → finish_sum sum < 2 ^ 16
unfolding finish_sum
finish_sum-lt sum = omega arith

-- Filling the zeroed field with the complement of the folded sum, or with all ones where that is 0,
-- makes the whole fold to all ones.
validates :
    (sum field : ℕ)
    → sum < 2 ^ 32 - 2 ^ 16
    → 0 < sum
    → (field ≡ finish_sum sum) ⊎ (finish_sum sum ≡ 0) × (field ≡ 65535)
    → finish_sum (sum + field) ≡ 0
unfolding finish_sum
validates sum field h p f =
    omega (arith, fold_carries_lem sum (omega arith), fold_carries_lem (sum + field) (omega arith))

-- Addresses and lengths that fit their fields.
header_words :
    (total src dst csum : ℕ)
    → words (ipv4_header total src dst csum) ≡ words (ipv4_header total src dst 0) + csum % 2 ^ 16
unfolding words
header_words total src dst csum = omega arith

header_words_bounds :
    (total src dst : ℕ)
    → (0 < words (ipv4_header total src dst 0)) × (words (ipv4_header total src dst 0) < 2 ^ 20)
unfolding words
header_words_bounds total src dst = omega arith

-- The header that `build_udp_ipv4` writes validates: summed with its checksum field it gives zero,
-- whatever the length and the addresses are.
checksum-ipv4_header :
    (total src dst : ℕ)
    → checksum (ipv4_header total src dst (checksum (ipv4_header total src dst 0))) ≡ 0
unfolding checksum
checksum-ipv4_header total src dst =
    let zeroed = ipv4_header total src dst 0 in
    let bounds = header_words_bounds total src dst in
    let plain : sum_words zeroed 0 ≡ words zeroed =
      sum_words-words zeroed 0 (omega arith) ∙ omega arith in
    let csum = finish_sum (sum_words zeroed 0) in
    let filled : sum_words (ipv4_header total src dst csum) 0 ≡ words zeroed + csum =
      sum_words-words (ipv4_header total src dst csum) 0
        (omega (arith, header_words total src dst csum, finish_sum-lt (sum_words zeroed 0)))
      ∙ omega (arith, header_words total src dst csum, finish_sum-lt (sum_words zeroed 0)) in
    ap finish_sum filled
    ∙ validates (words zeroed) csum (omega arith) (omega arith) (inl (ap finish_sum plain))

segment_words :
    (sport dport : ℕ) (payload : List ℕ) (csum : ℕ)
    → words (udp_segment sport dport payload csum)
      ≡ words (udp_segment sport dport payload 0) + csum % 2 ^ 16
unfolding words
segment_words sport dport payload csum = omega arith

segment_words_bound :
    (sport dport : ℕ) (payload : List ℕ)
    → All IsByte payload
    → length payload ≤ 65535
    → words (udp_segment sport dport payload 0) < 2 ^ 31 + 2 ^ 19
unfolding words
segment_words_bound sport dport payload b h = omega (arith, words-le payload b)

pseudo_sum-lt :
    (src dst len : ℕ)
    → src < 2 ^ 32
    → dst < 2 ^ 32
    → len < 2 ^ 16
    → (0 < pseudo_sum src dst len) × (pseudo_sum src dst len < 2 ^ 19)
unfolding pseudo_sum
pseudo_sum-lt src dst len hs hd hl = omega arith

nonzero_cases :
    (c : ℕ)
    → c < 2 ^ 16
    → (nonzero_checksum c < 2 ^ 16)
      × (0 < nonzero_checksum c)
      × ((nonzero_checksum c ≡ c) ⊎ (c ≡ 0) × (nonzero_checksum c ≡ 65535))
nonzero_cases c h = ground arith

-- The pseudo-header of RFC 768: the addresses, a zero byte, the protocol and the length of the segment.
abbrev pub pseudo_header : ℕ → ℕ → ℕ → List ℕ
pseudo_header src dst len = octets src ++ (octets dst ++ (0 ∷ 17 ∷ to_be16 len))

words-pseudo_header :
    (src dst len : ℕ) (bytes : List ℕ)
    → src < 2 ^ 32
    → dst < 2 ^ 32
    → len < 2 ^ 16
    → words (pseudo_header src dst len ++ bytes) ≡ pseudo_sum src dst len + words bytes
unfolding words pseudo_sum
words-pseudo_header src dst len bytes hs hd hl = omega arith

-- The complement of a folded sum fills the sum up to a multiple of 65535.
fills :
    (sum field : ℕ)
    → sum < 2 ^ 32
    → (field ≡ finish_sum sum) ⊎ (finish_sum sum ≡ 0) × (field ≡ 65535)
    → (sum + field) % 65535 ≡ 0
unfolding finish_sum
fills sum field h f = omega (arith, fold_carries_lem sum h)

segment_fills :
    (src sport dst dport : ℕ) (payload : List ℕ)
    → src < 2 ^ 32
    → dst < 2 ^ 32
    → All IsByte payload
    → length payload ≤ 65507
    → let zeroed = udp_segment sport dport payload 0 in
      let csum = nonzero_checksum (udp_checksum src dst zeroed) in
      ((pseudo_sum src dst (length zeroed) + words zeroed + csum) % 65535 ≡ 0)
      × (0 < csum)
      × (csum < 2 ^ 16)
unfolding udp_checksum
segment_fills src sport dst dport payload hs hd b h =
    let zeroed = udp_segment sport dport payload 0 in
    let ps = pseudo_sum src dst (length zeroed) in
    let small = pseudo_sum-lt src dst (length zeroed) hs hd (omega arith) in
    let bound = segment_words_bound sport dport payload b (omega arith) in
    let plain : sum_words zeroed (ps % 2 ^ 32) ≡ ps + words zeroed =
      sum_words-words zeroed (ps % 2 ^ 32) (omega arith) ∙ omega arith in
    let raw = finish_sum (sum_words zeroed (ps % 2 ^ 32)) in
    let field = nonzero_cases raw (finish_sum-lt (sum_words zeroed (ps % 2 ^ 32))) in
    (
      fills (ps + words zeroed) (nonzero_checksum raw) (omega arith) (rw (← plain) field.2),
      field.1,
      field.0,
    )

-- In a packet that `build_udp_ipv4` writes between 32-bit addresses, for a payload of at most 65507 bytes,
-- both checksums are right by RFC 1071 and RFC 768: the words of the IPv4 header, and those of the
-- pseudo-header with the UDP segment behind it, sum up to multiples of 65535; and the UDP checksum is
-- not the 0 that means "no checksum".
pub build_udp_ipv4-checksums :
    (src sport dst dport : ℕ) (payload : List ℕ)
    → src < 2 ^ 32
    → dst < 2 ^ 32
    → All IsByte payload
    → length payload ≤ 65507
    → let packet = build_udp_ipv4 src sport dst dport payload in
      (words (take 20 packet) % 65535 ≡ 0)
      × (words (pseudo_header src dst (8 + length payload) ++ drop 20 packet) % 65535 ≡ 0)
      × (words (take 2 (drop 26 packet)) ≢ 0)
unfolding build_udp_ipv4 checksum words
build_udp_ipv4-checksums src sport dst dport payload hs hd b h =
    let len = 8 + length payload in
    let total = 20 + len in
    let header = ipv4_header total src dst 0 in
    let bounds = header_words_bounds total src dst in
    let header_plain : sum_words header 0 ≡ words header =
      sum_words-words header 0 (omega arith) ∙ omega arith in
    let ip_csum = finish_sum (sum_words header 0) in
    let ip_fills = fills (words header) ip_csum (omega arith) (inl (ap finish_sum header_plain)) in
    let zeroed = udp_segment sport dport payload 0 in
    let csum = nonzero_checksum (udp_checksum src dst zeroed) in
    let (udp_fills, positive, small) = segment_fills src sport dst dport payload hs hd b h in
    let same : length zeroed ≡ 8 + length payload = omega arith in
    let segment = udp_segment sport dport payload csum in
    (
      omega
          (arith, header_words total src dst ip_csum, ip_fills, finish_sum-lt (sum_words header 0)),
      omega (
        arith,
        words-pseudo_header src dst len segment hs hd (omega arith),
        segment_words sport dport payload csum,
        ap (pseudo_sum src dst) same,
        udp_fills,
        small,
      ),
      omega (arith, positive, small),
    )
