-- ===== src/Country.antt =====
-- core/rust/shadowvpn-ios-ffi/src/country.rs and core/rust/chnroute-gen/src/main.rs: the addresses of a
-- country as CIDR blocks. The database reader is a parameter: its networks, in its order, as inclusive
-- ranges with the country code of the record. A CIDR is an address and a prefix length.
pub mod Blocks
pub mod Build
pub mod Generator
pub mod Cache
pub mod Termination
pub mod Main
mod Tests
use mathlib.Core.List.{reverse, foldl}
use shadowvpn_ios.Prelude.{
  ℕ, zero, suc, ◌+◌, ◌-◌, ◌*◌, ◌/◌, ◌%◌, ◌^◌, ◌≤◌, Bool, true, false, ◌&&◌, ◌||◌, Option, none,
  some, List, [], ◌∷◌, ◌++◌, min, map, length, ltb, leb, ◌==◌, if◌then◌else◌,
}
use shadowvpn_ios.Prelude.Result.{Result, ok, err}
use shadowvpn_ios.Text.{Text, text_eq}
use shadowvpn_ios.Text.Utf8.{to_ascii_lowercase}
use shadowvpn_ios.Chnroute.{Range, u32_max, sort_unstable}

abbrev pub Cidr : Type 0
Cidr = ℕ × ℕ

-- `u32::trailing_zeros`: 32 for zero.
pub zeros_loop : ℕ → ℕ → ℕ
zeros_loop zero n = 0
zeros_loop (suc width) n = let rest = zeros_loop width (n / 2) in if n % 2 == 0 then suc rest else 0

abbrev pub trailing_zeros : ℕ → ℕ
trailing_zeros n = zeros_loop 32 n

-- `63 - span.leading_zeros()` of a positive `u64`: the position of its highest one.
pub log2_loop : ℕ → ℕ → ℕ
log2_loop zero n = 0
log2_loop (suc width) n = let rest = log2_loop width (n / 2) in if n / 2 == 0 then 0 else suc rest

abbrev pub floor_log2 : ℕ → ℕ
floor_log2 n = log2_loop 63 n

-- `range_to_cidrs` of country.rs. A round covers an address at least, so `end + 1 - start` rounds are
-- enough. A shift `1u64 << bits` is `2 ^ bits`.
pub cidrs_loop : ℕ → ℕ → ℕ → List Cidr
cidrs_loop zero start end = []
cidrs_loop (suc fuel) start end =
    let bits = min (trailing_zeros start) (floor_log2 (end - start + 1)) in
    let next = start + 2 ^ bits in
    let rest = cidrs_loop fuel next end in (start, 32 - bits) ∷ (if ltb end next then [] else rest)

unfoldable pub range_to_cidrs : ℕ → ℕ → List Cidr
unfolding cidrs_loop
range_to_cidrs start end = cidrs_loop (end + 1 - start) start end

-- `range_to_cidrs` of chnroute-gen, which counts the span in 32 bits.
pub gen_loop : ℕ → ℕ → ℕ → List Cidr
gen_loop zero start end = []
gen_loop (suc fuel) start end =
    let by_align = if start == 0 then 32 else trailing_zeros start in
    let by_span = suc (floor_log2 (min (end - start + 1) u32_max)) in
    let bits = min by_align (if by_span == 0 then 0 else by_span - 1) in
    let block = if ltb bits 32 then 2 ^ bits else 0 in
    let next = start + block in
    let rest = gen_loop fuel next end in
    if leb start end
    then (start, 32 - bits) ∷ (if ltb u32_max next || block == 0 then [] else rest)
    else []

unfoldable pub gen_range_to_cidrs : ℕ → ℕ → List Cidr
unfolding gen_loop
gen_range_to_cidrs start end = gen_loop (end + 2 - start) start end

-- One round of the merging loop of both programs; `merged` is kept with its last element first.
pub merge_step : List Range → Range → List Range
merge_step [] r = r ∷ []
merge_step ((last_start, last_end) ∷ merged) (s, e) =
    if leb s (min (last_end + 1) u32_max)
    then (last_start, if ltb last_end e then e else last_end) ∷ merged
    else (s, e) ∷ (last_start, last_end) ∷ merged

abbrev pub is_alphanumeric : ℕ → Bool
is_alphanumeric c =
    (leb b'0' c && leb c b'9') || (leb b'A' c && leb c b'Z') || (leb b'a' c && leb c b'z')

abbrev pub to_upper : ℕ → ℕ
to_upper c = if leb b'a' c && leb c b'z' then c - 32 else c

unfoldable pub normalize_country : Text → Text
normalize_country [] = []
normalize_country (c ∷ s) =
    if is_alphanumeric c then to_upper c ∷ normalize_country s else normalize_country s

-- `eq_ignore_ascii_case`
abbrev pub eq_ignore_case : Text → Text → Bool
eq_ignore_case s t = text_eq (to_ascii_lowercase s) (to_ascii_lowercase t)

abbrev pub matches : Text → Option Text → Bool
matches code none = false
matches code (some iso) = eq_ignore_case iso code

-- An IPv4 network of the database: its range and its record's country code.
abbrev pub Network : Type 0
Network = Range × Option Text

pub select : Text → List Network → List Range
select code [] = []
select code ((range, iso) ∷ networks) =
    if matches code iso then range ∷ select code networks else select code networks

pub cidrs_of : List Range → List Cidr
cidrs_of [] = []
cidrs_of ((s, e) ∷ rs) = range_to_cidrs s e ++ cidrs_of rs

-- The errors of country.rs, each with the path, the code or the text that its message shows.
pub data CountryError : Type 0 where
  empty_code : CountryError
  no_networks : Text → CountryError
  stat_mmdb create_dir read_mmdb : Text → CountryError
  write_file rename_file : Text → CountryError
  open_mmdb iterate decode_network read_network decode_country : Text → CountryError

-- The CIDRs that `build_country_cidrs` writes.
unfoldable pub build_country_cidrs : List Network → Text → Result CountryError (List Cidr)
unfolding merge_step select cidrs_of
build_country_cidrs networks code = elim (select code networks) [
  | [] ↦ err (no_networks code)
  | r ∷ rs ↦ ok (cidrs_of (reverse (foldl merge_step [] (sort_unstable (r ∷ rs)))))
]
