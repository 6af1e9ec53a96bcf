-- ===== src/Chnroute/Cidr.antt =====
-- core/rust/shadowvpn-ios-ffi/src/vendor/policy/chnroute.rs: the parser of the route file.
pub mod Lines
pub mod Printed
use shadowvpn_ios.Prelude.{
  ℕ, zero, suc, ◌+◌, ◌-◌, ◌*◌, ◌/◌, ◌%◌, ◌^◌, ◌≤◌, ◌<◌, ◌≡◌, refl, Bool, true, false, ◌||◌, Option,
  none, some, List, [], ◌∷◌, length, ltb, leb, ◌==◌, if◌then◌else◌, arith,
}
use shadowvpn_ios.Text.{Text, codes, trim, split, split_once, parse_u32, parse_ipv4}
use shadowvpn_ios.Chnroute.{Range, ChnRoute, merge}

-- `line.is_empty() || line.starts_with('#')`
pub is_skipped : Text → Bool
is_skipped [] = true
is_skipped (c ∷ s) = c == b'#'

-- `base & mask` and `start | !mask`: the block of `2 ^ (32 - len)` addresses that holds `base`.
unfoldable pub block : ℕ → ℕ → Range
block base len =
    let size = 2 ^ (32 - len) in let start = base / size * size in (start, start + (size - 1))

pub parse_parts : Text × Text → Option Range
unfolding block
parse_parts (addr, len_text) = elim (parse_ipv4 (trim addr)) [
  | none ↦ none
  | some base ↦ elim (parse_u32 (trim len_text)) [
    | none ↦ none
    | some len ↦ if ltb 32 len then none else some (block base len)
  ]
]

unfoldable pub parse_cidr : Text → Option Range
unfolding is_skipped parse_parts
parse_cidr raw =
    let line = trim raw in
    if is_skipped line
    then none
    else elim (split_once b'/' line) [ none ↦ none | some parts ↦ parse_parts parts ]

-- The loop of `from_lines`: lines that do not parse are skipped.
pub parse_lines : List Text → List Range
unfolding parse_cidr
parse_lines [] = []
parse_lines (line ∷ lines) = elim (parse_cidr line) [
  | none ↦ parse_lines lines
  | some r ↦ r ∷ parse_lines lines
]

unfoldable pub from_lines : List Text → ChnRoute
unfolding merge parse_lines
from_lines lines = record { ranges = merge (parse_lines lines) }
