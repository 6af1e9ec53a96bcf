-- ===== src/Chnroute/Merge.antt =====
-- policy/chnroute.rs, `merge`: the ranges that come out of it.
use mathlib.Core.List.{reverse, foldl, reverse-append, reverse-cons}
use native.Mathlib.Decide.{dec_le}
use shadowvpn_ios.Prelude.{
  ℕ, ◌+◌, ◌≤◌, ◌<◌, ◌≡◌, ◌∙◌, ◌↔◌, true, false, List, [], ◌∷◌, ◌++◌, append_assoc, All, leb, max,
  arith,
}
use shadowvpn_ios.Chnroute.{
  Range, u32_max, range_leb, insert_range, sort_unstable, merge_step, merge, Covers,
}

-- An inclusive range of addresses.
abbrev pub IsRange : Range → Type 0
IsRange r = (r.0 ≤ r.1) × (r.1 ≤ u32_max)

-- The starts ascend from `lo` on.
abbrev pub Ascends : ℕ → List Range → Type 0
Ascends lo [] = Unit
Ascends lo (r ∷ rs) = (lo ≤ r.0) × Ascends r.0 rs

-- The ranges ascend from `lo` on, with an address that is in none of them between any two.
abbrev pub Separated : ℕ → List Range → Type 0
Separated lo [] = Unit
Separated lo (r ∷ rs) = (lo ≤ r.0) × (r.0 ≤ r.1) × Separated (r.1 + 2) rs

insert_range-Ascends :
    (lo : ℕ) (r : Range) (rs : List Range)
    → lo ≤ r.0
    → Ascends lo rs
    → Ascends lo (insert_range r rs)
unfolding insert_range range_leb
insert_range-Ascends lo (s, e) [] h a = (h, tt)
insert_range-Ascends lo (s, e) ((s', e') ∷ xs) h a =
    ground (arith, insert_range-Ascends s' (s, e) xs)

sort_unstable-Ascends : (rs : List Range) → Ascends 0 (sort_unstable rs)
unfolding sort_unstable
sort_unstable-Ascends [] = tt
sort_unstable-Ascends (r ∷ rs) =
    insert_range-Ascends 0 r (sort_unstable rs) (omega arith) (sort_unstable-Ascends rs)

insert_range-All :
    (r : Range) (rs : List Range) → IsRange r → All IsRange rs → All IsRange (insert_range r rs)
unfolding insert_range range_leb
insert_range-All r [] h a = (h, tt)
insert_range-All (s, e) ((s', e') ∷ xs) h a = ground (arith, insert_range-All (s, e) xs)

pub sort_unstable-All : (rs : List Range) → All IsRange rs → All IsRange (sort_unstable rs)
unfolding sort_unstable
sort_unstable-All [] a = tt
sort_unstable-All (r ∷ rs) a = insert_range-All r (sort_unstable rs) a.0 (sort_unstable-All rs a.1)

insert_range-Covers :
    (v : ℕ) (r : Range) (rs : List Range) → Covers (insert_range r rs) v ↔ Covers (r ∷ rs) v
unfolding insert_range range_leb
insert_range-Covers v r [] = (λ h. h, λ h. h)
insert_range-Covers v (s, e) ((s', e') ∷ xs) =
    let ih = insert_range-Covers v (s, e) xs in (ground (arith, ih), ground (arith, ih))

sort_unstable-Covers : (v : ℕ) (rs : List Range) → Covers (sort_unstable rs) v ↔ Covers rs v
unfolding sort_unstable
sort_unstable-Covers v [] = (λ h. h, λ h. h)
sort_unstable-Covers v (r ∷ rs) =
    let ih = sort_unstable-Covers v rs in
    let step = insert_range-Covers v r (sort_unstable rs) in
    (ground (arith, ih, step), ground (arith, ih, step))

-- The loop without its accumulator: the current range, and what is still to come.
collapse : Range → List Range → List Range
collapse r [] = r ∷ []
collapse (s, e) ((s', e') ∷ rs) = elim (leb s' (e + 1)) [
  | true ↦ collapse (s, max e e') rs
  | false ↦ (s, e) ∷ collapse (s', e') rs
]

module _ (s e s' e' : ℕ) where
  merge_step_joins :
      (out : List Range)
      → e ≤ u32_max
      → e' ≤ u32_max
      → s' ≤ e'
      → s' ≤ e + 1
      → merge_step ((s, e) ∷ out) (s', e') ≡ (s, max e e') ∷ out
  unfolding merge_step
  merge_step_joins out h k p q = ground arith

  merge_step_opens :
      (out : List Range) → e + 1 < s' → merge_step ((s, e) ∷ out) (s', e') ≡ (s', e') ∷ (s, e) ∷ out
  unfolding merge_step
  merge_step_opens out q = ground arith

  collapse_joins :
      (rs : List Range) → s' ≤ e + 1 → collapse (s, e) ((s', e') ∷ rs) ≡ collapse (s, max e e') rs
  unfolding collapse
  collapse_joins rs q = ground arith

  collapse_opens :
      (rs : List Range)
      → e + 1 < s'
      → collapse (s, e) ((s', e') ∷ rs) ≡ (s, e) ∷ collapse (s', e') rs
  unfolding collapse
  collapse_opens rs q = ground arith

merge_step-collapse :
    (rs : List Range) (r : Range) (out : List Range)
    → r.1 ≤ u32_max
    → All IsRange rs
    → reverse (foldl merge_step (r ∷ out) rs) ≡ reverse out ++ collapse r rs
merge_step-collapse [] (s, e) out h a = unfold collapse in reverse-append ((s, e) ∷ []) out
merge_step-collapse ((s', e') ∷ rs) (s, e) out h a = elim (dec_le s' (e + 1)) [
  | yes p ↦
      rw (merge_step_joins s e s' e' out h a.0.1 a.0.0 p, collapse_joins s e s' e' rs p)
        (merge_step-collapse rs (s, max e e') out (omega arith) a.1)
  | no p ↦
      rw (merge_step_opens s e s' e' out (omega arith), collapse_opens s e s' e' rs (omega arith))
        (merge_step-collapse rs (s', e') ((s, e) ∷ out) a.0.1 a.1 ∙ rw (reverse-cons, append_assoc))
]

Ascends-weaken : {lo hi : ℕ} (rs : List Range) → lo ≤ hi → Ascends hi rs → Ascends lo rs
Ascends-weaken [] h a = tt
Ascends-weaken (r ∷ rs) h a = (omega arith, a.1)

collapse-Covers :
    (v : ℕ) (r : Range) (rs : List Range)
    → IsRange r
    → Ascends r.0 rs
    → All IsRange rs
    → Covers (collapse r rs) v ↔ Covers (r ∷ rs) v
collapse-Covers v r [] h o a = unfold collapse in (λ c. c, λ c. c)
collapse-Covers v (s, e) ((s', e') ∷ rs) h o a = elim (dec_le s' (e + 1)) [
  | yes p ↦
      let ih = collapse-Covers v (s, max e e') rs (omega arith) (Ascends-weaken rs o.0 o.1) a.1 in
      rw (collapse_joins s e s' e' rs p) (ground (arith, ih), ground (arith, ih))
  | no p ↦
      let ih = collapse-Covers v (s', e') rs a.0 o.1 a.1 in
      rw (collapse_opens s e s' e' rs (omega arith)) (ground (arith, ih), ground (arith, ih))
]

collapse-Separated :
    (lo : ℕ) (r : Range) (rs : List Range)
    → lo ≤ r.0
    → IsRange r
    → Ascends r.0 rs
    → All IsRange rs
    → Separated lo (collapse r rs)
collapse-Separated lo r [] b h o a = unfold collapse in (b, h.0, tt)
collapse-Separated lo (s, e) ((s', e') ∷ rs) b h o a = elim (dec_le s' (e + 1)) [
  | yes p ↦
      rw (collapse_joins s e s' e' rs p)
        (collapse-Separated lo (s, max e e') rs b (omega arith) (Ascends-weaken rs o.0 o.1) a.1)
  | no p ↦
      rw (collapse_opens s e s' e' rs (omega arith))
        (b, h.0, collapse-Separated (e + 2) (s', e') rs (omega arith) a.0 o.1 a.1)
]

-- `merge` of sorted, valid ranges is the loop without its accumulator.
merge_cases :
    (rs : List Range)
    → All IsRange rs
    → Ascends 0 rs
    → Separated 0 (reverse (foldl merge_step [] rs))
      × ((v : ℕ) → Covers (reverse (foldl merge_step [] rs)) v ↔ Covers rs v)
merge_cases [] a o = (tt, λ v. (λ c. c, λ c. c))
merge_cases ((s, e) ∷ rs) a o = rw (lemma) (
  collapse-Separated 0 (s, e) rs (omega arith) a.0 o.1 a.1,
  λ v. collapse-Covers v (s, e) rs a.0 o.1 a.1,
)
  where
    lemma : reverse (foldl merge_step [] ((s, e) ∷ rs)) ≡ collapse (s, e) rs
    lemma = unfold merge_step in merge_step-collapse rs (s, e) [] a.0.1 a.1

-- Merging valid ranges gives ranges that ascend; none is empty, and between two of them an address is
-- left out: they neither overlap nor touch.
pub merge-Separated : (rs : List Range) → All IsRange rs → Separated 0 (merge rs)
unfolding merge
merge-Separated rs a =
    (merge_cases (sort_unstable rs) (sort_unstable-All rs a) (sort_unstable-Ascends rs)).0

-- Merging valid ranges keeps the set of addresses: an address lies in a merged range exactly when it
-- lies in one of the given ranges.
pub merge-Covers : (rs : List Range) (v : ℕ) → All IsRange rs → Covers (merge rs) v ↔ Covers rs v
unfolding merge
merge-Covers rs v a =
    let (to, from) =
      (merge_cases (sort_unstable rs) (sort_unstable-All rs a) (sort_unstable-Ascends rs)).1 v in
    let (to', from') = sort_unstable-Covers v rs in (λ c. to' (to c), λ c. from (from' c))
