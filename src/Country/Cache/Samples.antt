-- ===== src/Country/Cache/Samples.antt =====
-- A country's file for a small database.
use shadowvpn_ios.Prelude.{
  ℕ, ◌≡◌, refl, true, false, none, some, List, [], ◌∷◌, All, arith, if◌then◌else◌,
}
use shadowvpn_ios.Prelude.Result.{ok}
use shadowvpn_ios.Text.{Text, codes, text_eq}
use shadowvpn_ios.Text.Print.{digits_of, show_u64}
use shadowvpn_ios.Files.{
  Disk, Os, put, file_len, read, write, rename, path_join, ends_in_slash, with_extension,
  drop_extension,
}
use shadowvpn_ios.Chnroute.{sort_unstable}
use shadowvpn_ios.Country.{
  Network, select, merge_step, cidrs_of, range_to_cidrs, cidrs_loop, zeros_loop, log2_loop,
  normalize_country, build_country_cidrs,
}
use shadowvpn_ios.Country.Build.{IsNetwork}
use shadowvpn_ios.Country.Cache.{
  Item, v4, v6, Reader, collect, build_country_text, temporary, write_atomic, cache_file, is_cached,
  extract, find_or_extract, ensure_country_file,
}
use shadowvpn_ios.Country.Cache.Kept.{IsFound}

-- An operating system that refuses nothing.
abbrev pub willing : Os
willing = record {
  makes_dir = λ p. true;
  writes = λ p. none;
  renames = λ p q. true;
  reads = λ p. true;
  opens = λ p. true;
  error_text = codes "I/O error";
}

abbrev pub mmdb : Text
mmdb = codes "m"

abbrev pub database : List ℕ
database = 1 ∷ 2 ∷ 3 ∷ []

abbrev pub disk : Disk
disk p = if text_eq p mmdb then some database else none

abbrev pub items : List Item
items =
    v4 (0x01000100, 0x010001FF) (ok (some (codes "CN")))
    ∷ v6
    ∷ v4 (0x08080800, 0x080808FF) (ok (some (codes "US")))
    ∷ []

abbrev pub networks : List Network
networks =
    ((0x01000100, 0x010001FF), some (codes "CN"))
    ∷ ((0x08080800, 0x080808FF), some (codes "US"))
    ∷ []

abbrev pub reader : Reader
reader bytes = ok (ok items)

abbrev pub country : Text
country = codes "cn"

abbrev pub dir : Text
dir = codes "c"

abbrev pub path : Text
path = codes "c/chnroute-CN-3.txt"

pub path_runs : cache_file dir (normalize_country country) 3 ≡ path
unfolding cache_file normalize_country path_join ends_in_slash show_u64 digits_of
path_runs = refl

pub found : IsFound disk mmdb country 3
unfolding normalize_country file_len
found = (refl, refl)

pub not_cached : is_cached (file_len disk (cache_file dir (normalize_country country) 3)) ≡ false
unfolding is_cached file_len cache_file normalize_country path_join ends_in_slash show_u64 digits_of
not_cached = refl

pub readable : read willing disk mmdb ≡ some database
unfolding read
readable = refl

pub collected : collect items ≡ ok networks
unfolding collect
collected = refl

pub valid : All IsNetwork networks
valid = omega arith

pub first_call : (ensure_country_file reader willing mmdb country dir disk).0 ≡ ok path
unfolding ensure_country_file find_or_extract extract is_cached file_len cache_file
    normalize_country path_join ends_in_slash show_u64 digits_of build_country_text read collect
    build_country_cidrs select merge_step cidrs_of range_to_cidrs cidrs_loop zeros_loop log2_loop
    sort_unstable write_atomic temporary with_extension drop_extension write rename put
first_call = refl
