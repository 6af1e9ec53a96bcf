-- ===== src/Country/Main/Bundled.antt =====
-- chnroute-gen, `main`: the text that is written, read back by the route table's parser.
use mathlib.Core.List.{reverse, foldl}
use shadowvpn_ios.Prelude.{
  ℕ, zero, suc, ◌+◌, ◌-◌, ◌^◌, ◌≤◌, ◌<◌, ◌≡◌, ◌↔◌, inl, inr, sym, subst, ◌∙◌, Bool, true, false,
  List, [], ◌∷◌, ◌++◌, map, length, All, All-append, Any, arith, if◌then◌else◌,
}
use shadowvpn_ios.Text.{Text, codes}
use shadowvpn_ios.Text.Print.{show_u64, join, line_feed, lines}
use shadowvpn_ios.Text.Print.LineByLine.{IsInline}
use shadowvpn_ios.Chnroute.{Range, u32_max, Covers, contains, sort_unstable, merge}
use shadowvpn_ios.Chnroute.Cidr.{parse_lines, from_lines}
use shadowvpn_ios.Chnroute.Cidr.Lines.{from_lines-Covers}
use shadowvpn_ios.Chnroute.Merge.{Separated, merge-Separated, merge-Covers}
use shadowvpn_ios.Country.{Cidr, Network, select, merge_step, gen_loop, gen_range_to_cidrs}
use shadowvpn_ios.Country.Blocks.{ranges_of}
use shadowvpn_ios.Country.Build.{
  IsNetwork, Holds, merge_same, ranges_of_append, Covers-append, select-Covers, select-All,
}
use shadowvpn_ios.Country.Generator.{gen_range_to_cidrs-Covers}
use shadowvpn_ios.Country.Cache.{cidr_text}
use shadowvpn_ios.Country.Cache.Written.{
  IsCidr, IsPrefix, IsCidr-of, Holds-lt, IsInline-of, show_u64-IsAddress, titled_lem, body_lem,
}
use shadowvpn_ios.Country.Main.{gen_cidrs_of, gen_cidrs, gen_first_line, gen_second_line, gen_text}

-- Where the ranges end below `2 ^ 32`, the generator's CIDRs cover them and nothing else.
gen_cidrs_of-Covers :
    (rs : List Range) (lo v : ℕ)
    → Separated lo rs
    → ((x : ℕ) → Covers rs x → x < 2 ^ 32)
    → Covers (ranges_of (gen_cidrs_of rs)) v ↔ Covers rs v
unfolding gen_cidrs_of
gen_cidrs_of-Covers [] lo v h below = (λ c. c, λ c. c)
gen_cidrs_of-Covers ((s, e) ∷ rs) lo v (a, le, apart) below =
    let top : e ≤ u32_max = omega (arith, below e (inl (le, omega arith))) in
    let (to, from) = gen_cidrs_of-Covers rs (e + 2) v apart (λ x c. below x (inr c)) in
    let (to', from') = gen_range_to_cidrs-Covers s e v top in
    let (parts, whole) =
      Covers-append (ranges_of (gen_range_to_cidrs s e)) (ranges_of (gen_cidrs_of rs)) v in
    subst (λ x. Covers x v ↔ Covers ((s, e) ∷ rs) v)
      (sym (ranges_of_append (gen_range_to_cidrs s e) (gen_cidrs_of rs)))
      (
        λ h. elim (parts h) [ inl c ↦ inl (to' c) | inr c ↦ inr (to c) ],
        λ h. whole (elim h [ inl c ↦ inl (from' c) | inr c ↦ inr (from c) ]),
      )

gen_cidrs-Covers :
    (networks : List Network) (country : Text) (v : ℕ)
    → All IsNetwork networks
    → Covers (ranges_of (gen_cidrs networks country)) v ↔ Any (Holds country v) networks
unfolding gen_cidrs
gen_cidrs-Covers networks country v valid =
    let selected = select country networks in
    let ranges = select-All country networks valid in
    let below = λ (x : ℕ) (c : Covers (merge selected) x).
      Holds-lt country x networks valid
        ((select-Covers country x networks).0 ((merge-Covers selected x ranges).0 c)) in
    let (to, from) =
      gen_cidrs_of-Covers (merge selected) 0 v (merge-Separated selected ranges) below in
    let (to', from') = merge-Covers selected v ranges in
    let (to'', from'') = select-Covers country v networks in
    subst (λ m. Covers (ranges_of (gen_cidrs_of m)) v ↔ Any (Holds country v) networks)
      (sym (merge_same selected ranges)) (λ c. to'' (to' (to c)), λ c. from (from' (from'' c)))

round-IsPrefix :
    (runs stops : Bool) (start bits : ℕ) (rest : List Cidr)
    → All IsPrefix rest
    → All IsPrefix (if runs then (start, 32 - bits) ∷ (if stops then [] else rest) else [])
round-IsPrefix true true start bits rest h = (omega arith, tt)
round-IsPrefix true false start bits rest h = (omega arith, h)
round-IsPrefix false stops start bits rest h = tt

gen_loop-IsPrefix : (fuel start end : ℕ) → All IsPrefix (gen_loop fuel start end)
unfolding gen_loop
gen_loop-IsPrefix zero start end = tt
gen_loop-IsPrefix (suc fuel) start end = round-IsPrefix _ _ start _ _ (gen_loop-IsPrefix fuel _ end)

gen_cidrs_of-IsPrefix : (rs : List Range) → All IsPrefix (gen_cidrs_of rs)
unfolding gen_cidrs_of gen_range_to_cidrs
gen_cidrs_of-IsPrefix [] = tt
gen_cidrs_of-IsPrefix ((s, e) ∷ rs) =
    All-append IsPrefix (gen_range_to_cidrs s e) (gen_cidrs_of rs)
      (gen_loop-IsPrefix (e + 2 - s) s e) (gen_cidrs_of-IsPrefix rs)

parse_lines-gen_text :
    (country : Text) (cidrs : List Cidr)
    → All IsInline country
    → All IsCidr cidrs
    → parse_lines (lines (gen_text country cidrs)) ≡ ranges_of cidrs
unfolding gen_text gen_first_line gen_second_line
parse_lines-gen_text country cidrs hc h =
    let body = join (line_feed ∷ []) (map cidr_text cidrs) ++ line_feed ∷ [] in
    let count = show_u64 (length cidrs) in
    let title = codes ") — generated once from a MaxMind GeoLite2 Country mmdb" in
    titled_lem (codes " chnroute (") country title
      (gen_second_line (length cidrs) ++ line_feed ∷ body) (ground arith) hc (ground arith)
    ∙ titled_lem (codes " by core/rust/chnroute-gen. ") count (codes " CIDR ranges.") body
        (ground arith) (IsInline-of count (show_u64-IsAddress (length cidrs))) (ground arith)
    ∙ body_lem cidrs h

-- The file that chnroute-gen writes, read line by line into a route table, gives a table that contains an
-- address exactly when a network of the country holds it. The networks of the database are valid ranges
-- of 32-bit addresses, and the country on the command line has no line break.
pub contains-gen_text :
    (networks : List Network) (country : Text) (v : ℕ)
    → All IsNetwork networks
    → All IsInline country
    → (contains (from_lines (lines (gen_text country (gen_cidrs networks country)))) v ≡ true)
      ↔ Any (Holds country v) networks
unfolding gen_cidrs
contains-gen_text networks country v valid hc =
    let cidrs = gen_cidrs networks country in
    let covers = λ (x : ℕ). gen_cidrs-Covers networks country x valid in
    let good : All IsCidr cidrs =
      IsCidr-of cidrs (λ x c. Holds-lt country x networks valid ((covers x).0 c))
        (gen_cidrs_of-IsPrefix
          (reverse (foldl merge_step [] (sort_unstable (select country networks))))) in
    let (to, from) = from_lines-Covers (lines (gen_text country cidrs)) v in
    let e = parse_lines-gen_text country cidrs hc good in
    (
      λ c. (covers v).0 (subst (λ rs. Covers rs v) e (to c)),
      λ a. from (subst (λ rs. Covers rs v) (sym e) ((covers v).1 a)),
    )
