-- ===== src/Packet.antt =====
-- core/rust/shadowvpn-ios-ffi/src/dns_intercept.rs, the packet part: parsing and building IPv4/UDP
-- packets, and their checksums. A packet is a list of bytes, an IPv4 address a number.
pub mod Checksum
pub mod RoundTrip
pub mod Octets
pub mod Safety
mod Tests
use shadowvpn_ios.Prelude.{
  ℕ, zero, suc, ◌+◌, ◌-◌, ◌*◌, ◌/◌, ◌%◌, ◌^◌, ◌≤◌, Bool, true, false, ◌&&◌, ◌||◌, not, Option, none,
  some, List, [], ◌∷◌, ◌++◌, length, take, drop, ltb, leb, ◌==◌, if◌then◌else◌, bit_and, be16, be32,
  to_be16,
}
use shadowvpn_ios.Prelude.Outcome.{Outcome, ret, nothing, ◌>>=◌, index}

abbrev pub ipproto_udp : ℕ
ipproto_udp = 17

abbrev pub ipv4_min_header : ℕ
ipv4_min_header = 20

abbrev pub udp_header : ℕ
udp_header = 8

abbrev pub dns_port : ℕ
dns_port = 53

pub record ParsedQuery : Type 0 where
  pub client_ip : ℕ
  pub client_port : ℕ
  pub server_ip : ℕ
  pub server_port : ℕ
  pub dns : List ℕ

-- Addition of `u32`.
abbrev pub add32 : ℕ → ℕ → ℕ
add32 a b = (a + b) % 2 ^ 32

-- The sum of the 16-bit words, an odd last byte in front; `chunks_exact(2)` and its remainder.
pub sum_words : List ℕ → ℕ → ℕ
sum_words [] sum = sum
sum_words (last ∷ []) sum = add32 sum (last * 256)
sum_words (hi ∷ lo ∷ rest) sum = sum_words rest (add32 sum (be16 hi lo))

-- `while sum >> 16 != 0 { sum = (sum & 0xffff) + (sum >> 16) }`
pub fold_carries : ℕ → ℕ → ℕ
fold_carries zero sum = sum
fold_carries (suc fuel) sum =
    let rest = fold_carries fuel (sum % 2 ^ 16 + sum / 2 ^ 16) in
    if sum / 2 ^ 16 == 0 then sum else rest

-- `!(sum as u16)`. Three rounds are more than a `u32` needs.
pub finish_sum : ℕ → ℕ
finish_sum sum = 65535 - fold_carries 3 sum % 2 ^ 16

unfoldable pub checksum : List ℕ → ℕ
checksum bytes = finish_sum (sum_words bytes 0)

-- The sum of the pseudo-header.
pub pseudo_sum : ℕ → ℕ → ℕ → ℕ
pseudo_sum src dst len =
    src / 2 ^ 16 + src % 2 ^ 16 + (dst / 2 ^ 16 + dst % 2 ^ 16) + ipproto_udp + len

unfoldable pub udp_checksum : ℕ → ℕ → List ℕ → ℕ
udp_checksum src dst udp = finish_sum (sum_words udp (pseudo_sum src dst (length udp) % 2 ^ 32))

-- `octets()`
abbrev pub octets : ℕ → List ℕ
octets ip = (ip / 2 ^ 24 % 256) ∷ (ip / 2 ^ 16 % 256) ∷ (ip / 2 ^ 8 % 256) ∷ (ip % 256) ∷ []

-- The IPv4 header with a given checksum field.
abbrev pub ipv4_header : ℕ → ℕ → ℕ → ℕ → List ℕ
ipv4_header total_len src dst csum =
    0x45
    ∷ 0x00
    ∷ (to_be16 total_len
        ++ (0 ∷ 0 ∷ 0x40 ∷ 0x00 ∷ 64 ∷ ipproto_udp ∷ (to_be16 csum ++ (octets src ++ octets dst))))

-- The UDP segment with a given checksum field.
abbrev pub udp_segment : ℕ → ℕ → List ℕ → ℕ → List ℕ
udp_segment src_port dst_port payload csum =
    to_be16 src_port
    ++ (to_be16 dst_port ++ (to_be16 (udp_header + length payload) ++ (to_be16 csum ++ payload)))

-- RFC 768: a computed checksum of 0 is sent as 0xFFFF.
abbrev pub nonzero_checksum : ℕ → ℕ
nonzero_checksum csum = if csum == 0 then 0xffff else csum

-- The fields are written in place in the source; each checksum is computed over its field set to zero.
unfoldable pub build_udp_ipv4 : ℕ → ℕ → ℕ → ℕ → List ℕ → List ℕ
build_udp_ipv4 src_ip src_port dst_ip dst_port payload =
    let total_len = ipv4_min_header + (udp_header + length payload) in
    let ip_csum = checksum (ipv4_header total_len src_ip dst_ip 0) in
    let udp_csum = udp_checksum src_ip dst_ip (udp_segment src_port dst_port payload 0) in
    ipv4_header total_len src_ip dst_ip ip_csum
    ++ udp_segment src_port dst_port payload (nonzero_checksum udp_csum)

-- The first two bytes of a DNS message.
unfoldable pub txid : List ℕ → Option ℕ
txid [] = none
txid (a ∷ []) = none
txid (a ∷ b ∷ rest) = some (be16 a b)

-- `u16::from_be_bytes([b[i], b[i + 1]])` and `Ipv4Addr::new` of four bytes.
pub be16_at : List ℕ → ℕ → Outcome ℕ
be16_at b i = do hi ← index b i; lo ← index b (i + 1); ret (be16 hi lo)

pub ipv4_at : List ℕ → ℕ → Outcome ℕ
ipv4_at b i = do high ← be16_at b i; low ← be16_at b (i + 2); ret (high * 2 ^ 16 + low)

-- The part behind the IPv4 header of `ihl` bytes.
pub parse_udp : List ℕ → ℕ → ℕ → ℕ → Outcome ParsedQuery
parse_udp pkt ihl src_ip dst_ip = do
  let udp = drop ihl pkt
  src_port ← be16_at udp 0
  dst_port ← be16_at udp 2
  if not (dst_port == dns_port) then nothing else do
    udp_len ← be16_at udp 4
    let dns = take (udp_len - udp_header) (drop udp_header udp)
    if ltb udp_len udp_header || ltb (length pkt) (ihl + udp_len)
        then nothing
        else if length dns == 0
        then nothing
        else ret (record {
          client_ip = src_ip;
          client_port = src_port;
          server_ip = dst_ip;
          server_port = dst_port;
          dns = dns;
        })

unfoldable pub parse_udp_dns_query : List ℕ → Outcome ParsedQuery
parse_udp_dns_query pkt = if ltb (length pkt) ipv4_min_header then nothing else do
  first ← index pkt 0
  let ihl = bit_and first 0x0f * 4
  if not (first / 16 == 4)
      then nothing
      else if ltb ihl ipv4_min_header || ltb (length pkt) (ihl + udp_header)
      then nothing
      else do
        protocol ← index pkt 9
        flags_frag ← be16_at pkt 6
        if not (protocol == ipproto_udp)
            then nothing
            else if not (bit_and flags_frag 0x2000 == 0) || not (bit_and flags_frag 0x1fff == 0)
            then nothing
            else do
              src_ip ← ipv4_at pkt 12
              dst_ip ← ipv4_at pkt 16
              parse_udp pkt ihl src_ip dst_ip
