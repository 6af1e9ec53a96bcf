-- ===== src/Obfs.antt =====
-- core/rust/shadowvpn-ios-ffi/src/obfs.rs: the QUIC-like and the base64 framing of a datagram. Bytes
-- are numbers below 256; what the random generator returns is an argument.
pub mod Quic
pub mod Base64
pub mod Wire
pub mod Shaped
mod Tests
use shadowvpn_ios.Text.{Text, codes, text_eq}
use shadowvpn_ios.Prelude.{
  ℕ, zero, suc, ◌+◌, ◌-◌, ◌*◌, ◌/◌, ◌%◌, ◌^◌, ◌≤◌, Bool, true, false, ◌&&◌, ◌||◌, not, Option, none,
  some, List, [], ◌∷◌, ◌++◌, length, get_or, drop, ltb, leb, ◌==◌, if◌then◌else◌, bit_and, bit_or,
}

abbrev pub default_dcid_len : ℕ
default_dcid_len = 8

abbrev pub pn_len : ℕ
pn_len = 2

abbrev pub max_header : ℕ
max_header = 1 + 20 + 4

-- `pn` is the atomic counter; `fetch_add` wraps at 2 ^ 32.
pub record QuicObfs : Type 0 where
  pub dcid : List ℕ
  pub dcid_len : ℕ
  pub pn : ℕ

-- The random bytes of the connection id and the four of the seed are arguments.
pub new : List ℕ → ℕ → ℕ → ℕ → ℕ → QuicObfs
new dcid a b c d = record {
  dcid = dcid;
  dcid_len = length dcid;
  pn = a * 2 ^ 24 + b * 2 ^ 16 + c * 2 ^ 8 + d;
}

-- `pn.to_be_bytes()[2..]`
abbrev pub pn_bytes : ℕ → List ℕ
pn_bytes pn = (pn / 2 ^ 8 % 256) ∷ (pn % 256) ∷ []

-- The first byte, from one random byte.
pub first_byte : ℕ → ℕ
first_byte rnd = bit_or (bit_or 0x40 (bit_and rnd 0x3C)) (bit_and (pn_len - 1) 0x03)

-- `QuicObfs::wrap`: the wire bytes, and the obfuscator with its counter advanced.
pub quic_wrap : ℕ → QuicObfs → List ℕ → List ℕ × QuicObfs
unfolding first_byte
quic_wrap rnd q datagram = (
  first_byte rnd ∷ (q.dcid ++ (pn_bytes q.pn ++ datagram)),
  record q { pn = (q.pn + 1) % 2 ^ 32 },
)

-- `QuicObfs::unwrap`
pub quic_unwrap : QuicObfs → List ℕ → Option (List ℕ)
quic_unwrap q [] = none
quic_unwrap q (first ∷ rest) =
    let pkt = first ∷ rest in
    let hdr = 1 + q.dcid_len + (bit_and first 0x03 + 1) in
    if not (bit_and first 0x80 == 0) || (bit_and first 0x40 == 0)
    then none
    else if ltb (length pkt) hdr
    then none
    else some (drop hdr pkt)

pub header_len : QuicObfs → ℕ
header_len q = 1 + q.dcid_len + pn_len

-- The alphabet "A-Za-z0-9+/".
pub b64 : ℕ → ℕ
b64 i =
    if ltb i 26
    then b'A' + i
    else if ltb i 52
    then b'a' + (i - 26)
    else if ltb i 62
    then b'0' + (i - 52)
    else if i == 62
    then b'+'
    else b'/'

-- The loop that builds `B64_REV`, at one byte: the last `i` below `n` with `B64[i] = c`.
pub rev_from : ℕ → ℕ → ℕ
rev_from c zero = 0xFF
rev_from c (suc n) = if b64 n == c then n else rev_from c n

pub b64_rev : ℕ → ℕ
unfolding rev_from b64
b64_rev c = rev_from c 64

abbrev pub pad : ℕ
pad = b'='

-- The four characters of one chunk of at most three bytes, for `n` its 24 bits.
pub encode_chunk : ℕ → Bool → Bool → List ℕ
encode_chunk n second third =
    b64 (n / 2 ^ 18 % 64)
    ∷ b64 (n / 2 ^ 12 % 64)
    ∷ (if second then b64 (n / 2 ^ 6 % 64) else pad)
    ∷ (if third then b64 (n % 64) else pad)
    ∷ []

unfoldable pub base64_encode : List ℕ → List ℕ
unfolding encode_chunk
base64_encode [] = []
base64_encode (a ∷ []) = encode_chunk (a * 2 ^ 16) false false
base64_encode (a ∷ b ∷ []) = encode_chunk (a * 2 ^ 16 + b * 2 ^ 8) true false
base64_encode (a ∷ b ∷ c ∷ rest) =
    encode_chunk (a * 2 ^ 16 + b * 2 ^ 8 + c) true true ++ base64_encode rest

-- `out.push(b)`, where the rest of the loop appends to `out`.
abbrev pub push : ℕ → Option (List ℕ) → Option (List ℕ)
push b none = none
push b (some out) = some (b ∷ out)

-- The loop of `base64_decode`: `buf << 6 | v` in 32 bits; `v` is below 64, so `|` is a sum. The
-- result is what the rest of the loop appends to `out`.
pub decode_loop : List ℕ → ℕ → ℕ → Option (List ℕ)
decode_loop [] buf bits = some []
decode_loop (c ∷ cs) buf bits =
    let v = b64_rev c in
    let buf' = buf * 64 % 2 ^ 32 + v in
    let full = leb 8 (bits + 6) in
    let rest = decode_loop cs buf' (if full then bits - 2 else bits + 6) in
    if c == pad
    then some []
    else if v == 0xFF
    then none
    else if full
    then push (buf' / 2 ^ (bits - 2) % 256) rest
    else rest

unfoldable pub base64_decode : List ℕ → Option (List ℕ)
unfolding decode_loop
base64_decode input = decode_loop input 0 0

-- `Obfuscator`
pub data Obfuscator : Type 0 where
  quic : QuicObfs → Obfuscator
  base64 : Obfuscator

-- `Obfuscator::from_name`; `fresh` is what `QuicObfs::new` returns.
unfoldable pub from_name : Text → QuicObfs → Option Obfuscator
from_name name fresh =
    if text_eq name (codes "quic")
    then some (quic fresh)
    else if text_eq name (codes "base64")
    then some base64
    else none

pub wrap : ℕ → Obfuscator → List ℕ → List ℕ × Obfuscator
wrap rnd (quic q) datagram = let (out, q') = quic_wrap rnd q datagram in (out, quic q')
wrap rnd base64 datagram = (base64_encode datagram, base64)

pub unwrap : Obfuscator → List ℕ → Option (List ℕ)
unwrap (quic q) pkt = quic_unwrap q pkt
unwrap base64 pkt = base64_decode pkt
