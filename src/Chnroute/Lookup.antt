-- ===== src/Chnroute/Lookup.antt =====
-- policy/chnroute.rs: `contains` on a table that `from_ranges` has built.
use shadowvpn_ios.Prelude.{ℕ, ◌≡◌, ◌↔◌, true, List, All}
use shadowvpn_ios.Chnroute.{Range, from_ranges, contains, merge, Covers}
use shadowvpn_ios.Chnroute.Merge.{IsRange, merge-Separated, merge-Covers}
use shadowvpn_ios.Chnroute.Search.{verdict-binary_search}

-- A table built from valid ranges contains an address exactly when one of the given ranges does:
-- sorting, merging and the binary search together neither lose nor add an address.
pub contains-from_ranges :
    (rs : List Range) (v : ℕ) → All IsRange rs → (contains (from_ranges rs) v ≡ true) ↔ Covers rs v
unfolding contains from_ranges
contains-from_ranges rs v a =
    let (to, from) = verdict-binary_search v 0 (merge rs) (merge-Separated rs a) in
    let (to', from') = merge-Covers rs v a in (λ c. to' (to c), λ c. from (from' c))
