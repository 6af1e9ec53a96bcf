-- ===== src/Country/Cache/Written.antt =====
-- country.rs, `build_country_cidrs`: the text that is written, read back by the route table's parser.
use mathlib.Core.List.{reverse, foldl}
use shadowvpn_ios.Prelude.{
  ℕ, ◌+◌, ◌-◌, ◌^◌, ◌≤◌, ◌<◌, ◌≡◌, ◌↔◌, refl, sym, ap, subst, ◌∙◌, Bool-cases, inl, inr, some, List,
  [], ◌∷◌, ◌++◌, append_assoc, map, length, All, All-append, Any, arith, true, zero, suc, min, ltb,
}
use shadowvpn_ios.Prelude.Result.{ok}
use shadowvpn_ios.Text.{Text, codes}
use shadowvpn_ios.Text.Print.{show_u64, show_ipv4, join, line_feed, lines}
use shadowvpn_ios.Text.Print.Decimal.{IsDigit, show_u64-All, parse_ipv4-show, parse_u32-show}
use shadowvpn_ios.Text.Print.LineByLine.{IsInline, lines-append}
use shadowvpn_ios.Chnroute.{Range, Covers, contains, sort_unstable}
use shadowvpn_ios.Chnroute.Cidr.{block, parse_cidr, parse_lines, from_lines}
use shadowvpn_ios.Chnroute.Cidr.Lines.{
  block_lem, parse_lines_skip, parse_lines_keep, from_lines-Covers,
}
use shadowvpn_ios.Chnroute.Cidr.Printed.{
  IsAddressChar, parse_cidr-written, parse_cidr-comment, parse_lines_nil, parse_lines_blank,
}
use shadowvpn_ios.Country.{
  Cidr, Network, select, cidrs_of, cidrs_loop, range_to_cidrs, merge_step, build_country_cidrs,
  trailing_zeros, floor_log2,
}
use shadowvpn_ios.Country.Blocks.{ranges_of}
use shadowvpn_ios.Country.Build.{IsNetwork, Holds, written, build_country_cidrs-Covers}
use shadowvpn_ios.Country.Cache.{cidr_text, first_line, second_line, country_text}

-- An address and a prefix length.
abbrev pub IsCidr : Cidr → Type 0
IsCidr (a, p) = (a < 2 ^ 32) × (p ≤ 32)

address_of : (s : Text) → All IsDigit s → All IsAddressChar s
address_of [] h = tt
address_of (c ∷ s) ((lo, hi), h) = ((omega arith, hi, ground arith), address_of s h)

pub show_u64-IsAddress : (n : ℕ) → All IsAddressChar (show_u64 n)
show_u64-IsAddress n = address_of (show_u64 n) (show_u64-All n)

dot-IsAddressChar : IsAddressChar b'.'
dot-IsAddressChar = (omega arith, omega arith, refl)

dotted :
    (s t : Text) → All IsAddressChar s → All IsAddressChar t → All IsAddressChar (s ++ b'.' ∷ t)
dotted s t hs ht = All-append IsAddressChar s (b'.' ∷ t) hs (dot-IsAddressChar, ht)

show_ipv4-IsAddress : (a : ℕ) → All IsAddressChar (show_ipv4 a)
unfolding show_ipv4
show_ipv4-IsAddress a =
    dotted _ _ (show_u64-IsAddress _)
      (dotted _ _ (show_u64-IsAddress _) (dotted _ _ (show_u64-IsAddress _) (show_u64-IsAddress _)))

-- A printed CIDR parses to its block.
parse_cidr-cidr_text : (c : Cidr) → IsCidr c → parse_cidr (cidr_text c) ≡ some (block c.0 c.1)
unfolding cidr_text
parse_cidr-cidr_text (a, p) (ha, hp) =
    parse_cidr-written (show_ipv4 a) (show_u64 p) a p (show_ipv4-IsAddress a) (show_u64-IsAddress p)
      (parse_ipv4-show a ha) (parse_u32-show p hp) hp

pub IsInline-of : (s : Text) → All IsAddressChar s → All IsInline s
IsInline-of [] h = tt
IsInline-of (c ∷ s) ((lo, hi, n), h) = ((ground arith, ground arith), IsInline-of s h)

cidr_text-IsInline : (c : Cidr) → All IsInline (cidr_text c)
unfolding cidr_text
cidr_text-IsInline (a, p) =
    All-append IsInline (show_ipv4 a) (b'/' ∷ show_u64 p)
      (IsInline-of (show_ipv4 a) (show_ipv4-IsAddress a))
      ((refl, refl), IsInline-of (show_u64 p) (show_u64-IsAddress p))

kept :
    (c : Cidr) (rest : Text) (rs : List Range)
    → IsCidr c
    → parse_lines (lines rest) ≡ rs
    → parse_lines (lines (cidr_text c ++ line_feed ∷ rest)) ≡ block c.0 c.1 ∷ rs
kept c rest rs h e =
    ap parse_lines (lines-append (cidr_text c) rest (cidr_text-IsInline c))
    ∙ parse_lines_keep (cidr_text c) (lines rest) (block c.0 c.1) (parse_cidr-cidr_text c h)
    ∙ ap (◌∷◌ (block c.0 c.1)) e

join_lem :
    (s t u : Text) (ss : List Text)
    → join (line_feed ∷ []) (s ∷ t ∷ ss) ++ u
      ≡ s ++ line_feed ∷ (join (line_feed ∷ []) (t ∷ ss) ++ u)
unfolding join
join_lem s t u ss = append_assoc s (line_feed ∷ join (line_feed ∷ []) (t ∷ ss)) u

-- The lines of the body parse to the ranges.
pub body_lem :
    (cidrs : List Cidr)
    → All IsCidr cidrs
    → parse_lines (lines (join (line_feed ∷ []) (map cidr_text cidrs) ++ line_feed ∷ []))
      ≡ ranges_of cidrs
unfolding join lines
body_lem [] h = parse_lines_blank
body_lem (c ∷ []) (hc, h) = kept c [] [] hc parse_lines_nil
body_lem (c ∷ d ∷ cs) (hc, h) =
    let rest = join (line_feed ∷ []) (map cidr_text (d ∷ cs)) in
    ap (λ t. parse_lines (lines t))
      (join_lem (cidr_text c) (cidr_text d) (line_feed ∷ []) (map cidr_text cs))
    ∙ kept c (rest ++ line_feed ∷ []) (ranges_of (d ∷ cs)) hc (body_lem (d ∷ cs) h)

comment_lem :
    (s rest : Text)
    → All IsInline s
    → parse_lines (lines ((b'#' ∷ s) ++ line_feed ∷ rest)) ≡ parse_lines (lines rest)
comment_lem s rest h =
    ap parse_lines (lines-append (b'#' ∷ s) rest ((refl, refl), h))
    ∙ parse_lines_skip (b'#' ∷ s) (lines rest) (parse_cidr-comment s)

pub titled_lem :
    (s t u rest : Text)
    → All IsInline s
    → All IsInline t
    → All IsInline u
    → parse_lines (lines ((b'#' ∷ (s ++ t ++ u)) ++ line_feed ∷ rest)) ≡ parse_lines (lines rest)
titled_lem s t u rest hs ht hu =
    comment_lem (s ++ t ++ u) rest
      (All-append IsInline (s ++ t) u (All-append IsInline s t hs ht) hu)

-- The whole text parses to the ranges of its CIDRs.
parse_lines-country_text :
    (code : Text) (cidrs : List Cidr)
    → All IsInline code
    → All IsCidr cidrs
    → parse_lines (lines (country_text code cidrs)) ≡ ranges_of cidrs
unfolding country_text first_line second_line
parse_lines-country_text code cidrs hc h =
    let body = join (line_feed ∷ []) (map cidr_text cidrs) ++ line_feed ∷ [] in
    let count = show_u64 (length cidrs) in
    let title = codes ") — generated at runtime from a MaxMind GeoLite2 Country mmdb" in
    let hint = codes " CIDR ranges. Cached; delete this file to force regeneration." in
    titled_lem (codes " chnroute (") code title (second_line (length cidrs) ++ line_feed ∷ body)
      (ground arith) hc (ground arith)
    ∙ titled_lem (codes " ") count hint body (ground arith)
        (IsInline-of count (show_u64-IsAddress (length cidrs))) (ground arith)
    ∙ body_lem cidrs h

abbrev pub IsPrefix : Cidr → Type 0
IsPrefix c = c.1 ≤ 32

cidrs_loop-IsPrefix : (fuel start end : ℕ) → All IsPrefix (cidrs_loop fuel start end)
unfolding cidrs_loop
cidrs_loop-IsPrefix zero start end = tt
cidrs_loop-IsPrefix (suc fuel) start end = (
  omega arith,
  elim (Bool-cases (ltb end (start + 2 ^ bits))) [
    | inl e ↦ rw e tt
    | inr e ↦ rw e (cidrs_loop-IsPrefix fuel (start + 2 ^ bits) end)
  ],
)
  where
    bits : ℕ
    bits = min (trailing_zeros start) (floor_log2 (end - start + 1))

cidrs_of-IsPrefix : (rs : List Range) → All IsPrefix (cidrs_of rs)
unfolding cidrs_of range_to_cidrs
cidrs_of-IsPrefix [] = tt
cidrs_of-IsPrefix ((s, e) ∷ rs) =
    All-append IsPrefix (range_to_cidrs s e) (cidrs_of rs) (cidrs_loop-IsPrefix (e + 1 - s) s e)
      (cidrs_of-IsPrefix rs)

pub Holds-lt :
    (code : Text) (v : ℕ) (networks : List Network)
    → All IsNetwork networks
    → Any (Holds code v) networks
    → v < 2 ^ 32
Holds-lt code v [] valid h = absurd h
Holds-lt code v ((range, iso) ∷ networks) ((le, lt), valid) h = elim h [
  | inl (m, lo, hi) ↦ omega arith
  | inr h ↦ Holds-lt code v networks valid h
]

-- Where every covered address is below `2 ^ 32`, so are the addresses of the CIDRs.
pub IsCidr-of :
    (cidrs : List Cidr)
    → ((v : ℕ) → Covers (ranges_of cidrs) v → v < 2 ^ 32)
    → All IsPrefix cidrs
    → All IsCidr cidrs
IsCidr-of [] f h = tt
IsCidr-of ((a, p) ∷ cs) f (hp, h) =
    ((f a (inl ((block_lem a p a).1 refl)), hp), IsCidr-of cs (λ v c. f v (inr c)) h)

build_country_cidrs-IsCidr :
    (networks : List Network) (code : Text) (cidrs : List Cidr)
    → All IsNetwork networks
    → build_country_cidrs networks code ≡ ok cidrs
    → All IsCidr cidrs
build_country_cidrs-IsCidr networks code cidrs valid h =
    IsCidr-of cidrs
      (λ v c.
        Holds-lt code v networks valid
          ((build_country_cidrs-Covers networks code cidrs v valid h).0 c))
      (subst (All IsPrefix) (written networks code (select code networks) cidrs refl h)
        (cidrs_of-IsPrefix (reverse (foldl merge_step [] (sort_unstable (select code networks))))))

-- The file that is written for a country, read line by line into a route table, gives a table that
-- contains an address exactly when a network of the country holds it. The networks of the database are
-- valid ranges of 32-bit addresses, and the country's code has no line break.
pub contains-country_text :
    (networks : List Network) (code : Text) (cidrs : List Cidr) (v : ℕ)
    → All IsNetwork networks
    → All IsInline code
    → build_country_cidrs networks code ≡ ok cidrs
    → (contains (from_lines (lines (country_text code cidrs))) v ≡ true)
      ↔ Any (Holds code v) networks
contains-country_text networks code cidrs v valid hc h =
    let table = lines (country_text code cidrs) in
    let (to, from) = from_lines-Covers table v in
    let (to', from') = build_country_cidrs-Covers networks code cidrs v valid h in
    let e =
      parse_lines-country_text code cidrs hc
        (build_country_cidrs-IsCidr networks code cidrs valid h) in
    (
      λ c. to' (subst (λ rs. Covers rs v) e (to c)),
      λ a. from (subst (λ rs. Covers rs v) (sym e) (from' a)),
    )
