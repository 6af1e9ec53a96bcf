-- ===== src/Text/Print.antt =====
-- `Display` of numbers and IPv4 addresses, `join` and `lines`.
pub mod Decimal
pub mod LineByLine
use shadowvpn_ios.Prelude.{
  ℕ, zero, suc, ◌+◌, ◌/◌, ◌%◌, ◌^◌, Bool, true, false, ◌&&◌, List, [], ◌∷◌, ◌++◌, ltb, ◌==◌,
  if◌then◌else◌,
}
use shadowvpn_ios.Text.{Text, push_first}

-- The decimal digits of a number that has at most `fuel` of them.
unfoldable pub digits_of : ℕ → ℕ → Text
digits_of zero n = []
digits_of (suc fuel) n =
    let front = digits_of fuel (n / 10) in (if ltb n 10 then [] else front) ++ (b'0' + n % 10) ∷ []

-- `Display` of a `u64`, which has at most 20 digits.
unfoldable pub show_u64 : ℕ → Text
unfolding digits_of
show_u64 n = digits_of 20 n

-- `Display` of an `Ipv4Addr`.
unfoldable pub show_ipv4 : ℕ → Text
show_ipv4 a =
    show_u64 (a / 2 ^ 24 % 256)
    ++ b'.'
      ∷ (show_u64 (a / 2 ^ 16 % 256)
          ++ b'.' ∷ (show_u64 (a / 2 ^ 8 % 256) ++ b'.' ∷ show_u64 (a % 256)))

unfoldable pub join : Text → List Text → Text
join sep [] = []
join sep (s ∷ []) = s
join sep (s ∷ t ∷ ss) = s ++ (sep ++ join sep (t ∷ ss))

abbrev pub line_feed : ℕ
line_feed = 10

abbrev pub carriage_return : ℕ
carriage_return = 13

starts_line_feed : Text → Bool
starts_line_feed [] = false
starts_line_feed (c ∷ s) = c == line_feed

-- `lines`: a line ends at a line feed, with the carriage return before it; nothing follows the last.
unfoldable pub lines : Text → List Text
unfolding push_first starts_line_feed
lines [] = []
lines (c ∷ s) =
    let rest = lines s in
    if c == line_feed
    then [] ∷ rest
    else if c == carriage_return && starts_line_feed s
    then rest
    else push_first c rest
