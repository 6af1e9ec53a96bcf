-- ===== src/Country/Cache/Served.antt =====
-- country.rs, `ensure_country_file`: what the callers of the path read, and a second call.
use shadowvpn_ios.Prelude.{
  ℕ, ◌<◌, ◌≡◌, ◌↔◌, inl, inr, refl, sym, ap, subst, ◌∙◌, true, false, Option, none, some, List,
  length, All, Any, arith, Bool-cases,
}
use shadowvpn_ios.Prelude.Result.{ok, ok_injective}
use shadowvpn_ios.Text.{Text, as_bytes}
use shadowvpn_ios.Text.Print.{lines}
use shadowvpn_ios.Files.{Disk, Os, file_len, read}
use shadowvpn_ios.Chnroute.{ChnRoute, contains}
use shadowvpn_ios.Chnroute.Load.{load, load-as_bytes}
use shadowvpn_ios.Chnroute.Cidr.{from_lines}
use shadowvpn_ios.Country.{Network, CountryError, normalize_country}
use shadowvpn_ios.Country.Build.{IsNetwork, Holds}
use shadowvpn_ios.Country.Cache.{Item, Reader, collect, cache_file, is_cached, ensure_country_file}
use shadowvpn_ios.Country.Cache.Kept.{
  IsFound, ensure_country_file_cached, ensure_country_file-Extracted,
}
use shadowvpn_ios.Country.Cache.Made.{
  normalize-IsInline, err-ok, build_country_text-IsMade, made_pos, made-IsServed, made-IsScalar,
}

-- The file is loaded, and the table contains exactly the addresses of the country's networks.
abbrev pub IsLoaded : Os → Disk → Text → Text → List Network → Type 0
IsLoaded os disk path code networks =
    (table : ChnRoute) × (load os disk path ≡ some table)
    × ((v : ℕ) → (contains table v ≡ true) ↔ Any (Holds code v) networks)

-- A country's file that is not cached: where the call succeeds, the route table that is later loaded from
-- the returned path contains an address exactly when a network of the country holds it. The database's
-- file is readable and has valid networks, and the later read is not refused.
pub ensure_country_file-IsLoaded :
    (reader : Reader) (os later : Os) (mmdb country dir : Text) (disk : Disk) (n : ℕ)
    (bytes : List ℕ) (items : List Item) (networks : List Network) (path : Text)
    → IsFound disk mmdb country n
    → os.makes_dir dir ≡ true
    → is_cached (file_len disk (cache_file dir (normalize_country country) n)) ≡ false
    → read os disk mmdb ≡ some bytes
    → reader bytes ≡ ok (ok items)
    → collect items ≡ ok networks
    → All IsNetwork networks
    → later.reads path ≡ true
    → (ensure_country_file reader os mmdb country dir disk).0 ≡ ok path
    → IsLoaded later
        (ensure_country_file reader os mmdb country dir disk).1
        path
        (normalize_country country)
        networks
ensure_country_file-IsLoaded reader os later mmdb country dir disk n bytes items networks path found
      d c e f g valid readable h =
    let code = normalize_country country in
    let after = (ensure_country_file reader os mmdb country dir disk).1 in
    elim (ensure_country_file-Extracted reader os mmdb country dir disk n found d c) [
      | inl (text, built, r, content) ↦
          let made = build_country_text-IsMade reader os disk mmdb code text built in
          let here : after path ≡ some (as_bytes text) =
            subst (λ p. after p ≡ some (as_bytes text))
              (ok_injective {E = CountryError} (sym r ∙ h)) content in
          (
            from_lines (lines text),
            load-as_bytes later after path text readable here
                (made-IsScalar reader os disk mmdb country text made),
            made-IsServed reader os disk mmdb code text bytes items networks e f g valid
                (normalize-IsInline country) made,
          )
      | inr (x, r, content) ↦ absurd (err-ok (sym r ∙ h))
    ]

is_cached_lem : (o : Option ℕ) → is_cached o ≡ true → (len : ℕ) × (o ≡ some len) × (0 < len)
unfolding is_cached
is_cached_lem none h = absurd cc
is_cached_lem (some len) h = (len, refl, ground arith)

file_len_of :
    (disk : Disk) (path : Text) (bytes : List ℕ)
    → disk path ≡ some bytes
    → file_len disk path ≡ some (length bytes)
unfolding file_len
file_len_of disk path bytes e = rw (e, file_len)

-- Once a call has succeeded, for a country code that is not empty and an mmdb whose length can be asked, a
-- later call for the same country and directory, with the mmdb of the same size and where both calls
-- could make the cache directory, returns the same path and leaves the disk as it is, whatever its
-- reader and the system's writes do.
pub ensure_country_file_again :
    (reader later_reader : Reader) (os later : Os) (mmdb country dir : Text) (disk : Disk) (n : ℕ)
    (path : Text)
    → IsFound disk mmdb country n
    → os.makes_dir dir ≡ true
    → later.makes_dir dir ≡ true
    → let (result, after) = ensure_country_file reader os mmdb country dir disk in
      result ≡ ok path
      → file_len after mmdb ≡ some n
      → ensure_country_file later_reader later mmdb country dir after ≡ (ok path, after)
ensure_country_file_again reader later_reader os later mmdb country dir disk n path found d d' h
      same =
    let code = normalize_country country in
    let file = cache_file dir code n in
    let first = ensure_country_file reader os mmdb country dir disk in
    let again = λ (len : ℕ) (e : file_len first.1 file ≡ some len) (pos : 0 < len).
      ensure_country_file_cached later_reader later mmdb country dir first.1 n len (found.0, same)
        d' e pos in
    let answer = λ (p : Text) (r : first.0 ≡ ok p). ok_injective {E = CountryError} (sym r ∙ h) in
    elim (Bool-cases (is_cached (file_len disk file))) [
      | inl c ↦
          let (len, e, pos) = is_cached_lem (file_len disk file) c in
          let r = ensure_country_file_cached reader os mmdb country dir disk n len found d e pos in
          again len (ap (λ w. file_len w.1 file) r ∙ e) pos
          ∙ ap (λ p. (ok p, first.1)) (answer file (ap (λ w. w.0) r))
      | inr c ↦ elim (ensure_country_file-Extracted reader os mmdb country dir disk n found d c) [
        | inl (text, built, r, content) ↦
            again (length (as_bytes text)) (file_len_of first.1 file (as_bytes text) content) (
              made_pos reader os disk mmdb code text
                (build_country_text-IsMade reader os disk mmdb code text built))
            ∙ ap (λ p. (ok p, first.1)) (answer file r)
        | inr (x, r, content) ↦ absurd (err-ok (sym r ∙ h))
      ]
    ]
