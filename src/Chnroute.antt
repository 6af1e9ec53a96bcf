-- ===== src/Chnroute.antt =====
-- core/rust/shadowvpn-ios-ffi/src/vendor/policy/chnroute.rs: the China IPv4 route table. An address
-- is the number that `u32::from` gives, a range is inclusive.
pub mod Load
pub mod Cidr
pub mod Merge
pub mod Search
pub mod Lookup
pub mod Samples
use mathlib.Core.List.{reverse, foldl}
use shadowvpn_ios.Prelude.{
  ℕ, zero, suc, ◌+◌, ◌-◌, ◌/◌, ◌^◌, ◌≤◌, Bool, true, false, ◌&&◌, ◌||◌, not, Option, none, some,
  List, [], ◌∷◌, length, get_or, ltb, leb, ◌==◌, if◌then◌else◌, Any,
}

abbrev pub Range : Type 0
Range = ℕ × ℕ

abbrev pub u32_max : ℕ
u32_max = 2 ^ 32 - 1

-- The derived order of `(u32, u32)`.
pub range_leb : Range → Range → Bool
range_leb (s, e) (s', e') = ltb s s' || (s == s' && leb e e')

pub insert_range : Range → List Range → List Range
insert_range r [] = r ∷ []
insert_range r (x ∷ xs) = if range_leb r x then r ∷ x ∷ xs else x ∷ insert_range r xs

-- `sort_unstable`: equal pairs cannot be told apart, so the sorted list is unique.
unfoldable pub sort_unstable : List Range → List Range
unfolding insert_range range_leb
sort_unstable [] = []
sort_unstable (r ∷ rs) = insert_range r (sort_unstable rs)

-- One round of the loop of `merge`. `out` is kept with its last element first.
unfoldable pub merge_step : List Range → Range → List Range
merge_step [] r = r ∷ []
merge_step ((last_start, last_end) ∷ out) (start, end) =
    if leb start last_end || (not (last_end == u32_max) && start == last_end + 1)
    then (last_start, if ltb last_end end then end else last_end) ∷ out
    else (start, end) ∷ (last_start, last_end) ∷ out

unfoldable pub merge : List Range → List Range
unfolding merge_step
merge ranges = reverse (foldl merge_step [] (sort_unstable ranges))

pub record ChnRoute : Type 0 where
  pub ranges : List Range

pub from_ranges : List Range → ChnRoute
unfolding merge
from_ranges rs = record { ranges = merge rs }

unfoldable pub len : ChnRoute → ℕ
len t = length t.ranges

unfoldable pub is_empty : ChnRoute → Bool
is_empty t = len t == 0

-- What `binary_search_by` returns.
pub data Found : Type 0 where
  at : ℕ → Found
  insert_at : ℕ → Found

-- The halving loop of `slice::binary_search_by` on the starts: `size` candidates from `base` on.
pub search_loop : ℕ → List Range → ℕ → ℕ → ℕ → ℕ
search_loop zero rs v size base = base
search_loop (suc fuel) rs v size base =
    let half = size / 2 in
    let mid = base + half in
    let next = if ltb v (get_or rs mid (0, 0)).0 then base else mid in
    let rest = search_loop fuel rs v (size - half) next in if ltb 1 size then rest else base

-- The last comparison, at the one candidate left.
pub judge : List Range → ℕ → ℕ → Found
judge rs v base =
    let start = (get_or rs base (0, 0)).0 in
    if start == v then at base else insert_at (if ltb start v then base + 1 else base)

pub binary_search : List Range → ℕ → Found
binary_search [] v = insert_at 0
binary_search (r ∷ rs) v =
    let size = suc (length rs) in judge (r ∷ rs) v (search_loop size (r ∷ rs) v size 0)

-- The `match` of `contains` on the search.
pub verdict : List Range → ℕ → Found → Bool
verdict rs v (at i) = true
verdict rs v (insert_at idx) = if idx == 0 then false else leb v (get_or rs (idx - 1) (0, 0)).1

unfoldable pub contains : ChnRoute → ℕ → Bool
unfolding binary_search judge search_loop verdict
contains t v = verdict t.ranges v (binary_search t.ranges v)

-- `v` lies in one of the ranges.
abbrev pub Covers : List Range → ℕ → Type 0
Covers rs v = Any (λ r. (r.0 ≤ v) × (v ≤ r.1)) rs
