-- ===== src/Country/Build.antt =====
-- country.rs, `build_country_cidrs`: the addresses of the CIDRs that are written.
use mathlib.Core.List.{reverse, foldl}
use shadowvpn_ios.Chnroute
use shadowvpn_ios.Prelude.{
  ℕ, ◌+◌, ◌≤◌, ◌≡◌, ◌↔◌, ◌⊎◌, inl, inr, refl, sym, ap, subst, ◌∙◌, true, false, List, [], ◌∷◌, ◌++◌,
  Any, All, arith, Bool-cases,
}
use shadowvpn_ios.Prelude.Result.{ok, ok_injective}
use shadowvpn_ios.Text.{Text}
use shadowvpn_ios.Chnroute.{Range, u32_max, Covers, sort_unstable, merge}
use shadowvpn_ios.Chnroute.Cidr.{block}
use shadowvpn_ios.Chnroute.Merge.{
  IsRange, Separated, sort_unstable-All, merge-Separated, merge-Covers,
}
use shadowvpn_ios.Country.{
  Cidr, Network, CountryError, range_to_cidrs, merge_step, matches, select, cidrs_of,
  build_country_cidrs,
}
use shadowvpn_ios.Country.Blocks.{ranges_of, range_to_cidrs-Covers}

-- A saturating successor and the test on its overflow decide the same.
step_same :
    (out : List Range) (r : Range) → IsRange r → merge_step out r ≡ Chnroute.merge_step out r
unfolding merge_step Chnroute.merge_step
step_same [] r h = refl
step_same ((ls, le) ∷ out) (s, e) h = ground arith

fold_same :
    (rs out : List Range)
    → All IsRange rs
    → foldl merge_step out rs ≡ foldl Chnroute.merge_step out rs
fold_same [] out h = refl
fold_same (r ∷ rs) out (hr, h) =
    ap (λ o. foldl merge_step o rs) (step_same out r hr)
    ∙ fold_same rs (Chnroute.merge_step out r) h

pub merge_same :
    (rs : List Range) → All IsRange rs → reverse (foldl merge_step [] (sort_unstable rs)) ≡ merge rs
unfolding merge
merge_same rs h = ap reverse (fold_same (sort_unstable rs) [] (sort_unstable-All rs h))

pub ranges_of_append : (cs ds : List Cidr) → ranges_of (cs ++ ds) ≡ ranges_of cs ++ ranges_of ds
ranges_of_append [] ds = refl
ranges_of_append ((a, p) ∷ cs) ds = ap (◌∷◌ (block a p)) (ranges_of_append cs ds)

pub Covers-append : (rs ss : List Range) (v : ℕ) → Covers (rs ++ ss) v ↔ Covers rs v ⊎ Covers ss v
Covers-append [] ss v = (inr, λ h. elim h [ inl e ↦ absurd e | inr c ↦ c ])
Covers-append (r ∷ rs) ss v =
    let (to, from) = Covers-append rs ss v in
    (
      λ h. elim h [
        | inl c ↦ inl (inl c)
        | inr c ↦ elim (to c) [ inl d ↦ inl (inr d) | inr d ↦ inr d ]
      ],
      λ h. elim h [
        | inl d ↦ elim d [ inl c ↦ inl c | inr c ↦ inr (from (inl c)) ]
        | inr c ↦ inr (from (inr c))
      ],
    )

cidrs_of-Covers :
    (rs : List Range) (lo v : ℕ)
    → Separated lo rs
    → Covers (ranges_of (cidrs_of rs)) v ↔ Covers rs v
unfolding cidrs_of
cidrs_of-Covers [] lo v h = (λ c. c, λ c. c)
cidrs_of-Covers ((s, e) ∷ rs) lo v (a, le, apart) =
    let (to, from) = cidrs_of-Covers rs (e + 2) v apart in
    let (to', from') = range_to_cidrs-Covers s e v le in
    let (parts, whole) =
      Covers-append (ranges_of (range_to_cidrs s e)) (ranges_of (cidrs_of rs)) v in
    subst (λ x. Covers x v ↔ Covers ((s, e) ∷ rs) v)
      (sym (ranges_of_append (range_to_cidrs s e) (cidrs_of rs)))
      (
        λ h. elim (parts h) [ inl c ↦ inl (to' c) | inr c ↦ inr (to c) ],
        λ h. whole (elim h [ inl c ↦ inl (from' c) | inr c ↦ inr (from c) ]),
      )

-- The network is one of the country's and holds the address.
abbrev pub Holds : Text → ℕ → Network → Type 0
Holds code v (range, iso) = (matches code iso ≡ true) × (range.0 ≤ v) × (v ≤ range.1)

false-true : false ≡ true → ⊥
false-true e = cc

pub select-Covers :
    (code : Text) (v : ℕ) (networks : List Network)
    → Covers (select code networks) v ↔ Any (Holds code v) networks
unfolding select
select-Covers code v [] = (λ c. c, λ c. c)
select-Covers code v ((range, iso) ∷ networks) =
    let (to, from) = select-Covers code v networks in
    elim (Bool-cases (matches code iso)) [
      | inl e ↦ rw e (
        λ h. elim h [ inl (lo, hi) ↦ inl (refl, lo, hi) | inr c ↦ inr (to c) ],
        λ h. elim h [ inl (m, lo, hi) ↦ inl (lo, hi) | inr c ↦ inr (from c) ],
      )
      | inr e ↦ rw e (
        λ c. inr (to c),
        λ h. elim h [ inl (m, lo, hi) ↦ absurd (false-true m) | inr c ↦ from c ],
      )
    ]

abbrev pub IsNetwork : Network → Type 0
IsNetwork n = IsRange n.0

pub select-All :
    (code : Text) (networks : List Network)
    → All IsNetwork networks
    → All IsRange (select code networks)
unfolding select
select-All code [] h = tt
select-All code ((range, iso) ∷ networks) (hr, h) = elim (Bool-cases (matches code iso)) [
  | inl e ↦ rw e (hr, select-All code networks h)
  | inr e ↦ rw e (select-All code networks h)
]

-- What is written for a selection that is not empty.
selected-Covers :
    (rs : List Range) (v : ℕ)
    → All IsRange rs
    → Covers (ranges_of (cidrs_of (reverse (foldl merge_step [] (sort_unstable rs))))) v
      ↔ Covers rs v
selected-Covers rs v valid =
    let (to, from) = cidrs_of-Covers (merge rs) 0 v (merge-Separated rs valid) in
    let (to', from') = merge-Covers rs v valid in
    subst (λ m. Covers (ranges_of (cidrs_of m)) v ↔ Covers rs v) (sym (merge_same rs valid))
      (λ c. to' (to c), λ c. from (from' c))

pub written :
    (networks : List Network) (code : Text) (selected : List Range) (cidrs : List Cidr)
    → select code networks ≡ selected
    → build_country_cidrs networks code ≡ ok cidrs
    → cidrs_of (reverse (foldl merge_step [] (sort_unstable selected))) ≡ cidrs
unfolding build_country_cidrs
written networks code [] cidrs e h = absurd (ground (arith, e))
written networks code (r ∷ rs) cidrs e h =
    ok_injective {E = CountryError} (sym (ground (arith, e)) ∙ h)

-- For a database of valid networks, the CIDRs that are written for a country cover an address exactly
-- when a network of that country holds it.
pub build_country_cidrs-Covers :
    (networks : List Network) (code : Text) (cidrs : List Cidr) (v : ℕ)
    → All IsNetwork networks
    → build_country_cidrs networks code ≡ ok cidrs
    → Covers (ranges_of cidrs) v ↔ Any (Holds code v) networks
build_country_cidrs-Covers networks code cidrs v valid h =
    let selected = select code networks in
    let (to, from) = selected-Covers selected v (select-All code networks valid) in
    let (to', from') = select-Covers code v networks in
    subst (λ cs. Covers (ranges_of cs) v ↔ Any (Holds code v) networks)
      (written networks code selected cidrs refl h) (λ c. to' (to c), λ c. from (from' c))
