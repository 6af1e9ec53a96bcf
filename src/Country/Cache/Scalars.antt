-- ===== src/Country/Cache/Scalars.antt =====
-- country.rs, `build_country_cidrs`: the characters of the text that is written.
use shadowvpn_ios.Prelude.{
  ℕ, ◌<◌, ◌≡◌, inl, inr, true, List, [], ◌∷◌, ◌++◌, map, length, All, All-append, arith, Bool-cases,
}
use shadowvpn_ios.Text.{Text, codes}
use shadowvpn_ios.Text.Print.{show_u64, show_ipv4, join, line_feed}
use shadowvpn_ios.Text.Print.Decimal.{IsDigit, show_u64-All}
use shadowvpn_ios.Text.Utf8.Decoded.{IsScalar}
use shadowvpn_ios.Country.{Cidr, normalize_country, is_alphanumeric, to_upper}
use shadowvpn_ios.Country.Cache.{cidr_text, first_line, second_line, country_text}

digits-IsScalar : (s : Text) → All IsDigit s → All IsScalar s
digits-IsScalar [] h = tt
digits-IsScalar (c ∷ s) ((lo, hi), h) = ((omega arith, inl (omega arith)), digits-IsScalar s h)

show-IsScalar : (n : ℕ) → All IsScalar (show_u64 n)
show-IsScalar n = digits-IsScalar (show_u64 n) (show_u64-All n)

-- Two parts with an ASCII character between them.
joined :
    (s t : Text) (c : ℕ) → c < 128 → All IsScalar s → All IsScalar t → All IsScalar (s ++ c ∷ t)
joined s t c h hs ht = All-append IsScalar s (c ∷ t) hs ((omega arith, inl (omega arith)), ht)

cidr_text-IsScalar : (c : Cidr) → All IsScalar (cidr_text c)
unfolding cidr_text show_ipv4
cidr_text-IsScalar (a, p) =
    joined _ (show_u64 p) b'/' (omega arith)
      (joined _ _ b'.' (omega arith) (show-IsScalar _) (
        joined _ _ b'.' (omega arith) (show-IsScalar _)
          (joined _ _ b'.' (omega arith) (show-IsScalar _) (show-IsScalar _))))
      (show-IsScalar p)

body-IsScalar : (cidrs : List Cidr) → All IsScalar (join (line_feed ∷ []) (map cidr_text cidrs))
unfolding join
body-IsScalar [] = tt
body-IsScalar (c ∷ []) = cidr_text-IsScalar c
body-IsScalar (c ∷ d ∷ cs) =
    joined (cidr_text c) (join (line_feed ∷ []) (map cidr_text (d ∷ cs))) line_feed (omega arith)
      (cidr_text-IsScalar c) (body-IsScalar (d ∷ cs))

upper-IsScalar : (c : ℕ) → is_alphanumeric c ≡ true → IsScalar (to_upper c)
upper-IsScalar c h = (ground arith, inl (ground arith))

pub normalize-IsScalar : (s : Text) → All IsScalar (normalize_country s)
unfolding normalize_country
normalize-IsScalar [] = tt
normalize-IsScalar (c ∷ s) = elim (Bool-cases (is_alphanumeric c)) [
  | inl e ↦ rw e (upper-IsScalar c e, normalize-IsScalar s)
  | inr e ↦ rw e (normalize-IsScalar s)
]

-- The text of a country's file is made of Unicode scalar values.
pub country_text-IsScalar :
    (code : Text) (cidrs : List Cidr) → All IsScalar code → All IsScalar (country_text code cidrs)
unfolding country_text first_line second_line
country_text-IsScalar code cidrs h =
    let title = codes ") — generated at runtime from a MaxMind GeoLite2 Country mmdb" in
    let hint = codes " CIDR ranges. Cached; delete this file to force regeneration." in
    let count = show_u64 (length cidrs) in
    let opening = codes "# chnroute (" in
    let first : All IsScalar (opening ++ code ++ title) =
      All-append IsScalar (opening ++ code) title
        (All-append IsScalar opening code (ground arith) h) (ground arith) in
    let second : All IsScalar (codes "# " ++ count ++ hint) =
      All-append IsScalar (codes "# " ++ count) hint
        (All-append IsScalar (codes "# ") count (ground arith) (show-IsScalar (length cidrs)))
        (ground arith) in
    let body = join (line_feed ∷ []) (map cidr_text cidrs) ++ line_feed ∷ [] in
    joined (first_line code) (second_line (length cidrs) ++ line_feed ∷ body) line_feed
      (omega arith) first
      (joined (second_line (length cidrs)) body line_feed (omega arith) second (
        joined (join (line_feed ∷ []) (map cidr_text cidrs)) [] line_feed (omega arith)
          (body-IsScalar cidrs) tt))
