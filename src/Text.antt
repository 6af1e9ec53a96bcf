-- ===== src/Text.antt =====
-- The parts of Rust's `str` and of the number parsers that the code uses. A text is the list of its
-- code points.
pub mod Ascii
pub mod Utf8
pub mod Numbers
pub mod Print
pub mod Trim
pub mod Encoding
pub mod Samples
mod Tests
use Prim.Native.Char.{Char, code}
use Prim.Native.String.{String}
use shadowvpn_ios.Prelude.{
  ℕ, zero, suc, ◌+◌, ◌-◌, ◌*◌, ◌/◌, ◌%◌, ◌^◌, ◌≡◌, refl, Bool, true, false, ◌&&◌, ◌||◌, not, Option,
  none, some, List, [], ◌∷◌, ◌++◌, length, leb, ltb, ◌==◌, if◌then◌else◌,
}

abbrev pub Text : Type 0
Text = List ℕ

abbrev pub codes : String → Text
codes String.[] = []
codes (String.◌∷◌ c s) = code c ∷ codes s

abbrev pub text_eq : Text → Text → Bool
text_eq [] [] = true
text_eq [] (d ∷ t) = false
text_eq (c ∷ s) [] = false
text_eq (c ∷ s) (d ∷ t) = c == d && text_eq s t

-- `char::is_whitespace`
pub is_whitespace : ℕ → Bool
is_whitespace c =
    (leb 9 c && leb c 13)
    || c == 32
    || c == 0x85
    || c == 0xA0
    || c == 0x1680
    || (leb 0x2000 c && leb c 0x200A)
    || c == 0x2028
    || c == 0x2029
    || c == 0x202F
    || c == 0x205F
    || c == 0x3000

pub trim_start : Text → Text
unfolding is_whitespace
trim_start [] = []
trim_start (c ∷ s) = if is_whitespace c then trim_start s else c ∷ s

pub trim_end : Text → Text
unfolding is_whitespace
trim_end [] = []
trim_end (c ∷ s) = elim (trim_end s) [
  | [] ↦ if is_whitespace c then [] else c ∷ []
  | d ∷ t ↦ c ∷ d ∷ t
]

unfoldable pub trim : Text → Text
unfolding trim_start trim_end
trim s = trim_end (trim_start s)

pub push_first : ℕ → List Text → List Text
push_first c [] = (c ∷ []) ∷ []
push_first c (s ∷ ss) = (c ∷ s) ∷ ss

-- `split(sep)`: one part more than there are separators.
unfoldable pub split : ℕ → Text → List Text
unfolding push_first
split sep [] = [] ∷ []
split sep (c ∷ s) = if c == sep then [] ∷ split sep s else push_first c (split sep s)

-- `split_once(sep)`, with what stands before the first separator.
unfoldable pub split_once : ℕ → Text → Option (Text × Text)
split_once sep [] = none
split_once sep (c ∷ s) =
    if c == sep
    then some ([], s)
    else elim (split_once sep s) [ none ↦ none | some (a, b) ↦ some (c ∷ a, b) ]

pub is_digit : ℕ → Bool
is_digit c = leb b'0' c && leb c b'9'

-- The checked loop of the unsigned parsers: `none` on another character or above `limit`.
pub digits_loop : ℕ → Text → ℕ → Option ℕ
unfolding is_digit
digits_loop limit [] acc = some acc
digits_loop limit (c ∷ s) acc =
    let acc' = acc * 10 + (c - b'0') in
    let rest = digits_loop limit s acc' in if is_digit c && leb acc' limit then rest else none

-- `u32::from_str`: an optional `+`, then at least one digit.
unfoldable pub parse_u32 : Text → Option ℕ
unfolding digits_loop
parse_u32 [] = none
parse_u32 (c ∷ []) = digits_loop (2 ^ 32 - 1) (c ∷ []) 0
parse_u32 (c ∷ d ∷ s) =
    if c == b'+' then digits_loop (2 ^ 32 - 1) (d ∷ s) 0 else digits_loop (2 ^ 32 - 1) (c ∷ d ∷ s) 0

-- One part of an IPv4 address: one to three digits, no zero in front of another digit.
pub parse_octet : Text → Option ℕ
unfolding digits_loop
parse_octet [] = none
parse_octet (c ∷ s) =
    if ltb 2 (length s) || (c == b'0' && not (length s == 0))
    then none
    else digits_loop 255 (c ∷ s) 0

pub four_octets : List Text → Option ℕ
unfolding parse_octet
four_octets (a ∷ b ∷ c ∷ d ∷ []) = elim (parse_octet a) [
  | none ↦ none
  | some w ↦ elim (parse_octet b) [
    | none ↦ none
    | some x ↦ elim (parse_octet c) [
      | none ↦ none
      | some y ↦ elim (parse_octet d) [
        | none ↦ none
        | some z ↦ some (w * 2 ^ 24 + x * 2 ^ 16 + y * 2 ^ 8 + z)
      ]
    ]
  ]
]
four_octets _ = none

-- `Ipv4Addr::from_str` followed by `u32::from`.
unfoldable pub parse_ipv4 : Text → Option ℕ
unfolding four_octets split
parse_ipv4 s = four_octets (split b'.' s)

-- `as_bytes`: the UTF-8 encoding.
unfoldable pub utf8 : ℕ → List ℕ
utf8 c =
    if ltb c 0x80
    then c ∷ []
    else if ltb c 0x800
    then (0xC0 + c / 64) ∷ (0x80 + c % 64) ∷ []
    else if ltb c 0x10000
    then (0xE0 + c / 4096) ∷ (0x80 + c / 64 % 64) ∷ (0x80 + c % 64) ∷ []
    else (0xF0 + c / 262144) ∷ (0x80 + c / 4096 % 64) ∷ (0x80 + c / 64 % 64) ∷ (0x80 + c % 64) ∷ []

unfoldable pub as_bytes : Text → List ℕ
unfolding utf8
as_bytes [] = []
as_bytes (c ∷ s) = utf8 c ++ as_bytes s

-- The port of a socket address: at least one digit.
pub parse_port : Text → Option ℕ
unfolding digits_loop
parse_port [] = none
parse_port (c ∷ s) = digits_loop 65535 (c ∷ s) 0

-- `SocketAddrV4::from_str`
unfoldable pub parse_sockaddr_v4 : Text → Option (ℕ × ℕ)
unfolding parse_port
parse_sockaddr_v4 s = elim (split_once b':' s) [
  | none ↦ none
  | some (ip, port) ↦ elim (parse_ipv4 ip) [
    | none ↦ none
    | some a ↦ elim (parse_port port) [ none ↦ none | some n ↦ some (a, n) ]
  ]
]
