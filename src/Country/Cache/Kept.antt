-- ===== src/Country/Cache/Kept.antt =====
-- country.rs, `ensure_country_file` and `write_atomic`: the files on the disk, whatever fails.
use shadowvpn_ios.Prelude.{
  ℕ, ◌+◌, ◌<◌, ◌≡◌, ◌⊎◌, inl, inr, refl, sym, ap, subst, ◌∙◌, true, false, some, [], ◌∷◌, ◌++◌,
  append_assoc, length, length-append, ltb, ◌==◌, arith, Bool-cases, Option-cases,
}
use shadowvpn_ios.Prelude.Result.{Result, ok, err, Result-cases}
use shadowvpn_ios.Text.{Text, codes, text_eq, as_bytes}
use shadowvpn_ios.Config.{is_empty}
use shadowvpn_ios.Text.Print.{show_u64}
use shadowvpn_ios.Text.Print.Decimal.{show_u64-last}
use shadowvpn_ios.Files.{Disk, Os, put, file_len, write, rename, with_extension}
use shadowvpn_ios.Files.Paths.{text_eq_self, text_eq-length, with_extension-txt, path_join_lem}
use shadowvpn_ios.Country.{CountryError, normalize_country}
use shadowvpn_ios.Country.Cache.{
  Reader, temporary, write_atomic, cache_file, is_cached, extract, find_or_extract,
  build_country_text, ensure_country_file,
}

-- A cache file's path ends in a character that is no slash, and `.txt`.
cache_file_lem :
    (dir code : Text) (n : ℕ)
    → (pre : Text) × (d : ℕ) × (cache_file dir code n ≡ pre ++ d ∷ codes ".txt")
      × ((d == b'/') ≡ false)
unfolding cache_file
cache_file_lem dir code n =
    let stem = codes "chnroute-" ++ code ++ codes "-" in
    let (front, d, e, digit) = show_u64-last n in
    let (pre, f) = path_join_lem dir (stem ++ show_u64 n ++ codes ".txt") in
    let name : stem ++ show_u64 n ++ codes ".txt" ≡ (stem ++ front) ++ d ∷ codes ".txt" =
      ap (λ s. stem ++ s ++ codes ".txt") e
      ∙ ap (λ s. s ++ codes ".txt") (sym (append_assoc stem front (d ∷ [])))
      ∙ append_assoc (stem ++ front) (d ∷ []) (codes ".txt") in
    (
      pre ++ (stem ++ front),
      d,
      f ∙ ap (λ s. pre ++ s) name ∙ sym (append_assoc pre (stem ++ front) (d ∷ codes ".txt")),
      ground arith,
    )

-- The temporary file is longer by four characters.
length-temporary :
    (path pre : Text) (d : ℕ)
    → path ≡ pre ++ d ∷ codes ".txt"
    → (d == b'/') ≡ false
    → length (temporary path) ≡ length path + 4
unfolding temporary
length-temporary path pre d e h =
    let long : length (pre ++ d ∷ []) ≡ length pre + 1 = length-append pre (d ∷ []) in
    ap (λ p. length (with_extension p (codes "txt.tmp"))) e
    ∙ ap length (with_extension-txt pre (codes "txt.tmp") d h)
    ∙ omega (
      arith,
      length-append (pre ++ d ∷ []) (codes ".txt.tmp"),
      length-append pre (d ∷ codes ".txt"),
      ap length e,
    )

temporary_apart :
    (dir code : Text) (n : ℕ)
    → text_eq (cache_file dir code n) (temporary (cache_file dir code n)) ≡ false
temporary_apart dir code n =
    let path = cache_file dir code n in
    let (pre, d, e, h) = cache_file_lem dir code n in
    let longer = length-temporary path pre d e h in
    text_eq-length path (temporary path) (λ same. omega arith)

-- The file is the whole text and the write reports success, or the file is as it was and the write
-- reports an error.
abbrev Atomic : Text → Text → Disk → Result CountryError (Unit {0}) × Disk → Type 0
Atomic path text disk r =
    (r.0 ≡ ok tt) × (r.1 path ≡ some (as_bytes text))
    ⊎ (e : CountryError) × (r.0 ≡ err e) × (r.1 path ≡ disk path)

write_atomic-Atomic :
    (os : Os) (path text : Text) (disk : Disk)
    → text_eq path (temporary path) ≡ false
    → Atomic path text disk (write_atomic os path text disk)
unfolding write_atomic write rename put
write_atomic-Atomic os path text disk apart = ground (
  arith,
  text_eq_self path,
  text_eq_self (temporary path),
  apart,
  Bool-cases (os.opens (temporary path)),
  Option-cases (os.writes (temporary path)),
  Bool-cases (os.renames (temporary path) path),
)

-- No other file is touched but the temporary one.
write_atomic_other :
    (os : Os) (path text p : Text) (disk : Disk)
    → text_eq p path ≡ false
    → text_eq p (temporary path) ≡ false
    → (write_atomic os path text disk).1 p ≡ disk p
unfolding write_atomic write rename put
write_atomic_other os path text p disk h k = ground (
  arith,
  h,
  k,
  text_eq_self (temporary path),
  Bool-cases (os.opens (temporary path)),
  Option-cases (os.writes (temporary path)),
  Bool-cases (os.renames (temporary path) path),
)

-- The code is not empty and the database's file has `n` bytes.
abbrev pub IsFound : Disk → Text → Text → ℕ → Type 0
IsFound disk mmdb country n =
    (is_empty (normalize_country country) ≡ false) × (file_len disk mmdb ≡ some n)

abbrev file_of : Text → Text → ℕ → Text
file_of country dir n = cache_file dir (normalize_country country) n

ensure_found :
    (reader : Reader) (os : Os) (mmdb country dir : Text) (disk : Disk) (n : ℕ)
    → IsFound disk mmdb country n
    → os.makes_dir dir ≡ true
    → ensure_country_file reader os mmdb country dir disk
      ≡ find_or_extract reader os mmdb (normalize_country country) (file_of country dir n) disk
unfolding ensure_country_file
ensure_found reader os mmdb country dir disk n (e, f) d = rw (e, f, d)

-- A cache file that is there and not empty is the result: nothing is read from the database and nothing
-- is written.
pub ensure_country_file_cached :
    (reader : Reader) (os : Os) (mmdb country dir : Text) (disk : Disk) (n len : ℕ)
    → IsFound disk mmdb country n
    → os.makes_dir dir ≡ true
    → file_len disk (cache_file dir (normalize_country country) n) ≡ some len
    → 0 < len
    → ensure_country_file reader os mmdb country dir disk
      ≡ (ok (cache_file dir (normalize_country country) n), disk)
unfolding find_or_extract is_cached
ensure_country_file_cached reader os mmdb country dir disk n len found d e pos =
    ensure_found reader os mmdb country dir disk n found d ∙ rw (e, positive)
  where
    positive : ltb 0 len ≡ true
    positive = ground arith

extract_built :
    (reader : Reader) (os : Os) (mmdb code file text : Text) (disk : Disk)
    → build_country_text reader os disk mmdb code ≡ ok text
    → let (outcome, disk') = write_atomic os file text disk in
      extract reader os mmdb code file disk
      ≡ elim outcome [ err e ↦ (err e, disk') | ok done ↦ (ok file, disk') ]
unfolding extract
extract_built reader os mmdb code file text disk e = rw (e, extract)

extract_unbuilt :
    (reader : Reader) (os : Os) (mmdb code file : Text) (disk : Disk) (x : CountryError)
    → build_country_text reader os disk mmdb code ≡ err x
    → extract reader os mmdb code file disk ≡ (err x, disk)
unfolding extract
extract_unbuilt reader os mmdb code file disk x e = rw (e, extract)

-- The result is the file, with the whole text in it, or an error, with the file as it was.
abbrev pub Extracted :
    Reader → Os → Text → Text → Text → Disk → Result CountryError Text × Disk → Type 0
Extracted reader os mmdb code file disk r =
    ((text : Text) × (build_country_text reader os disk mmdb code ≡ ok text)
      × (r.0 ≡ ok file)
      × (r.1 file ≡ some (as_bytes text)))
    ⊎ ((e : CountryError) × (r.0 ≡ err e) × (r.1 file ≡ disk file))

Extracted-of :
    (reader : Reader) (os : Os) (mmdb code file text : Text) (disk : Disk)
    (w : Result CountryError (Unit {0}) × Disk)
    → build_country_text reader os disk mmdb code ≡ ok text
    → Atomic file text disk w
    → let (outcome, disk') = w in
      Extracted reader os mmdb code file disk
        (elim outcome [ err e ↦ (err e, disk') | ok done ↦ (ok file, disk') ])
Extracted-of reader os mmdb code file text disk (ok done, disk') b (inl (e, f)) =
    inl (text, b, refl, f)
Extracted-of reader os mmdb code file text disk (err x, disk') b (inl (e, f)) = absurd cc
Extracted-of reader os mmdb code file text disk (ok done, disk') b (inr (x, e, f)) = absurd cc
Extracted-of reader os mmdb code file text disk (err y, disk') b (inr (x, e, f)) = inr (y, refl, f)

extract-Extracted :
    (reader : Reader) (os : Os) (mmdb code file : Text) (disk : Disk)
    → text_eq file (temporary file) ≡ false
    → Extracted reader os mmdb code file disk (extract reader os mmdb code file disk)
extract-Extracted reader os mmdb code file disk apart =
    elim (Result-cases (build_country_text reader os disk mmdb code)) [
      | inl (text, e) ↦
          subst (Extracted reader os mmdb code file disk)
            (sym (extract_built reader os mmdb code file text disk e))
            (Extracted-of reader os mmdb code file text disk (write_atomic os file text disk) e
              (write_atomic-Atomic os file text disk apart))
      | inr (x, e) ↦
          subst (Extracted reader os mmdb code file disk)
            (sym (extract_unbuilt reader os mmdb code file disk x e)) (inr (x, refl, refl))
    ]

-- For a country code that is not empty, an mmdb whose length can be asked, a cache directory that can be
-- made, and no cache file that is not empty, whatever the database, the reader and the other operations
-- of the system do: the result is the cache file's path, and the file holds the whole text that the
-- database gives for the country; or it is an error, and the file is as it was. No write is seen half.
pub ensure_country_file-Extracted :
    (reader : Reader) (os : Os) (mmdb country dir : Text) (disk : Disk) (n : ℕ)
    → IsFound disk mmdb country n
    → os.makes_dir dir ≡ true
    → is_cached (file_len disk (cache_file dir (normalize_country country) n)) ≡ false
    → Extracted reader os mmdb
        (normalize_country country)
        (cache_file dir (normalize_country country) n)
        disk
        (ensure_country_file reader os mmdb country dir disk)
unfolding find_or_extract
ensure_country_file-Extracted reader os mmdb country dir disk n found d c =
    let code = normalize_country country in
    let file = cache_file dir code n in
    let e : ensure_country_file reader os mmdb country dir disk
        ≡ extract reader os mmdb code file disk =
      ensure_found reader os mmdb country dir disk n found d ∙ rw c in
    subst (Extracted reader os mmdb code file disk) (sym e)
      (extract-Extracted reader os mmdb code file disk (temporary_apart dir code n))
