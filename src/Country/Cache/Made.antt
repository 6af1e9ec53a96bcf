-- ===== src/Country/Cache/Made.antt =====
-- country.rs, `build_country_text`: what the text of a built file is made of.
use shadowvpn_ios.Prelude.{
  ℕ, ◌<◌, ◌≡◌, ◌↔◌, inl, inr, sym, ap, subst, ◌∙◌, true, none, some, List, [], ◌∷◌, length, All,
  Any, arith, Bool-cases, Option-cases,
}
use shadowvpn_ios.Prelude.Result.{Result, ok, err, ◌>>=◌, map_err, bind-ok, ok_injective}
use shadowvpn_ios.Text.{Text, as_bytes}
use shadowvpn_ios.Text.Encoding.{as_bytes_pos}
use shadowvpn_ios.Text.Print.{lines}
use shadowvpn_ios.Text.Print.LineByLine.{IsInline}
use shadowvpn_ios.Files.{Disk, Os, read}
use shadowvpn_ios.Chnroute.{contains}
use shadowvpn_ios.Text.Utf8.Decoded.{IsScalar}
use shadowvpn_ios.Country.Cache.Scalars.{normalize-IsScalar, country_text-IsScalar}
use shadowvpn_ios.Chnroute.Cidr.{from_lines}
use shadowvpn_ios.Country.{
  Cidr, Network, CountryError, read_mmdb, open_mmdb, iterate, normalize_country, is_alphanumeric,
  to_upper, build_country_cidrs,
}
use shadowvpn_ios.Country.Build.{IsNetwork, Holds}
use shadowvpn_ios.Country.Cache.{
  Item, Reader, collect, first_line, country_text, build_country_text,
}
use shadowvpn_ios.Country.Cache.Written.{contains-country_text}

char-IsInline : (c : ℕ) → is_alphanumeric c ≡ true → IsInline (to_upper c)
char-IsInline c h = (ground arith, ground arith)

pub normalize-IsInline : (s : Text) → All IsInline (normalize_country s)
unfolding normalize_country
normalize-IsInline [] = tt
normalize-IsInline (c ∷ s) = elim (Bool-cases (is_alphanumeric c)) [
  | inl e ↦ rw e (char-IsInline c e, normalize-IsInline s)
  | inr e ↦ rw e (normalize-IsInline s)
]

-- The text is made of the CIDRs of the networks that the reader gives.
pub IsMade : Reader → Os → Disk → Text → Text → Text → Type 0
IsMade reader os disk mmdb code text =
    (bytes : List ℕ) × (items : List Item) × (networks : List Network) × (cidrs : List Cidr) × (read
        os disk mmdb
      ≡ some bytes)
    × (reader bytes ≡ ok (ok items))
    × (collect items ≡ ok networks)
    × (build_country_cidrs networks code ≡ ok cidrs)
    × (text ≡ country_text code cidrs)

pub err-ok : {E A : Type 0} {e : E} {a : A} (h : ◌≡◌ {A = Result E A} (err e) (ok a)) → ⊥
err-ok h = cc

some_injective : {A : Type 0} {a b : A} → some a ≡ some b → a ≡ b
some_injective h = cc

map_err-ok : {E F A : Type 0} (f : E → F) (m : Result E A) (a : A) → map_err f m ≡ ok a → m ≡ ok a
map_err-ok f (ok b) a h = ap ok (ok_injective h)
map_err-ok f (err e) a h = absurd cc

-- The chain after the file is read.
parsed : Reader → Text → List ℕ → Result CountryError Text
parsed reader code bytes = do
  opened ← map_err open_mmdb (reader bytes)
  items ← map_err iterate opened
  networks ← collect items
  cidrs ← build_country_cidrs networks code
  ok (country_text code cidrs)

build_unread :
    (reader : Reader) (os : Os) (disk : Disk) (mmdb code : Text)
    → read os disk mmdb ≡ none
    → build_country_text reader os disk mmdb code ≡ err (read_mmdb mmdb)
unfolding build_country_text
build_unread reader os disk mmdb code e = rw (e, build_country_text)

build_read :
    (reader : Reader) (os : Os) (disk : Disk) (mmdb code : Text) (bytes : List ℕ)
    → read os disk mmdb ≡ some bytes
    → build_country_text reader os disk mmdb code ≡ parsed reader code bytes
unfolding build_country_text parsed
build_read reader os disk mmdb code bytes e = rw (e, build_country_text)

parsed-IsMade :
    (reader : Reader) (os : Os) (disk : Disk) (mmdb code text : Text) (bytes : List ℕ)
    → read os disk mmdb ≡ some bytes
    → parsed reader code bytes ≡ ok text
    → IsMade reader os disk mmdb code text
unfolding parsed IsMade
parsed-IsMade reader os disk mmdb code text bytes e h =
    let (opened, h1, r1) = bind-ok (map_err open_mmdb (reader bytes)) text h in
    let (items, h2, r2) = bind-ok (map_err iterate opened) text r1 in
    let (networks, h3, r3) = bind-ok (collect items) text r2 in
    let (cidrs, h4, r4) = bind-ok (build_country_cidrs networks code) text r3 in
    let opened_ok = map_err-ok open_mmdb (reader bytes) opened h1 in
    (
      bytes,
      items,
      networks,
      cidrs,
      e,
      opened_ok ∙ ap ok (map_err-ok iterate opened items h2),
      h3,
      h4,
      sym (ok_injective {E = CountryError} r4),
    )

pub build_country_text-IsMade :
    (reader : Reader) (os : Os) (disk : Disk) (mmdb code text : Text)
    → build_country_text reader os disk mmdb code ≡ ok text
    → IsMade reader os disk mmdb code text
build_country_text-IsMade reader os disk mmdb code text h =
    elim (Option-cases (read os disk mmdb)) [
      | inl e ↦ absurd (err-ok (sym (build_unread reader os disk mmdb code e) ∙ h))
      | inr (bytes, e) ↦
          parsed-IsMade reader os disk mmdb code text bytes e
            (sym (build_read reader os disk mmdb code bytes e) ∙ h)
    ]

-- A cache file's text is not empty.
pub made_pos :
    (reader : Reader) (os : Os) (disk : Disk) (mmdb code text : Text)
    → IsMade reader os disk mmdb code text
    → 0 < length (as_bytes text)
unfolding country_text first_line IsMade
made_pos reader os disk mmdb code text (bytes, items, networks, cidrs, e, f, g, h, k) =
    subst (λ t. 0 < length (as_bytes t)) (sym k) (as_bytes_pos _ _)

-- What a table that is loaded from the file contains.
abbrev pub IsServed : Text → List Network → Text → Type 0
IsServed code networks text =
    (v : ℕ) → (contains (from_lines (lines text)) v ≡ true) ↔ Any (Holds code v) networks

pub made-IsServed :
    (reader : Reader) (os : Os) (disk : Disk) (mmdb code text : Text) (bytes : List ℕ)
    (items : List Item) (networks : List Network)
    → read os disk mmdb ≡ some bytes
    → reader bytes ≡ ok (ok items)
    → collect items ≡ ok networks
    → All IsNetwork networks
    → All IsInline code
    → IsMade reader os disk mmdb code text
    → IsServed code networks text
unfolding IsMade
made-IsServed reader os disk mmdb code text bytes items networks e f g valid hc
      (bytes', items', networks', cidrs, e', f', g', h, k) v =
    let same : bytes' ≡ bytes = some_injective (sym e' ∙ e) in
    let same_items : items' ≡ items = ok_injective (ok_injective (sym f' ∙ ap reader same ∙ f)) in
    let same_networks : networks' ≡ networks =
      ok_injective {E = CountryError} (sym g' ∙ ap collect same_items ∙ g) in
    let made : build_country_cidrs networks code ≡ ok cidrs =
      subst (λ ns. build_country_cidrs ns code ≡ ok cidrs) same_networks h in
    subst (λ t. (contains (from_lines (lines t)) v ≡ true) ↔ Any (Holds code v) networks) (sym k)
      (contains-country_text networks code cidrs v valid hc made)

pub made-IsScalar :
    (reader : Reader) (os : Os) (disk : Disk) (mmdb country text : Text)
    → IsMade reader os disk mmdb (normalize_country country) text
    → All IsScalar text
unfolding IsMade
made-IsScalar reader os disk mmdb country text (bytes, items, networks, cidrs, e, f, g, h, k) =
    subst (All IsScalar) (sym k)
      (country_text-IsScalar (normalize_country country) cidrs (normalize-IsScalar country))
