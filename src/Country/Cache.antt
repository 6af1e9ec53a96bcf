-- ===== src/Country/Cache.antt =====
-- country.rs, `ensure_country_file`, `build_country_cidrs` and `write_atomic`: the text of the CIDRs and
-- the file that caches it. The database reader is a parameter.
pub mod Written
pub mod Kept
pub mod Scalars
pub mod Made
pub mod Served
pub mod Samples
mod Tests
use shadowvpn_ios.Prelude.{
  ℕ, Bool, true, false, Option, none, some, List, [], ◌∷◌, ◌++◌, map, length, ltb, if◌then◌else◌,
}
use shadowvpn_ios.Prelude.Result.{Result, ok, err, ◌>>=◌, map_err}
use shadowvpn_ios.Text.{Text, codes, as_bytes}
use shadowvpn_ios.Config.{is_empty}
use shadowvpn_ios.Text.Print.{show_u64, show_ipv4, join, line_feed}
use shadowvpn_ios.Files.{Disk, Os, file_len, read, write, rename, path_join, with_extension}
use shadowvpn_ios.Chnroute.{Range}
use shadowvpn_ios.Country.{
  Cidr, Network, CountryError, empty_code, stat_mmdb, create_dir, read_mmdb, write_file,
  rename_file, open_mmdb, iterate, decode_network, read_network, decode_country, normalize_country,
  build_country_cidrs,
}

-- An item of the database's iterator: an error, a network that cannot be read, or a network with its
-- decoded record.
pub data Item : Type 0 where
  bad_item : Text → Item
  bad_network : Text → Item
  v6 : Item
  v4 : Range → Result Text (Option Text) → Item

-- `Reader::from_source` and then `within`, with the texts of their errors.
abbrev pub Reader : Type 0
Reader = List ℕ → Result Text (Result Text (List Item))

-- The walk over the database, which ends at the first error.
unfoldable pub collect : List Item → Result CountryError (List Network)
collect [] = ok []
collect (bad_item e ∷ items) = err (decode_network e)
collect (bad_network e ∷ items) = err (read_network e)
collect (v6 ∷ items) = collect items
collect (v4 range (err e) ∷ items) = err (decode_country e)
collect (v4 range (ok iso) ∷ items) = collect items >>= λ networks. ok ((range, iso) ∷ networks)

unfoldable pub cidr_text : Cidr → Text
cidr_text (address, prefix) = show_ipv4 address ++ b'/' ∷ show_u64 prefix

pub first_line : Text → Text
first_line code =
    codes "# chnroute ("
    ++ code
    ++ codes ") — generated at runtime from a MaxMind GeoLite2 Country mmdb"

pub second_line : ℕ → Text
second_line count =
    codes "# "
    ++ show_u64 count
    ++ codes " CIDR ranges. Cached; delete this file to force regeneration."

-- The text of a cache file: two comment lines, and a line for every CIDR.
unfoldable pub country_text : Text → List Cidr → Text
unfolding first_line second_line cidr_text
country_text code cidrs =
    first_line code
    ++ line_feed
      ∷ (second_line (length cidrs)
          ++ line_feed ∷ (join (line_feed ∷ []) (map cidr_text cidrs) ++ line_feed ∷ []))

-- `build_country_cidrs`, from the database's file to the text.
unfoldable pub build_country_text : Reader → Os → Disk → Text → Text → Result CountryError Text
unfolding collect
build_country_text reader os disk mmdb code = elim (read os disk mmdb) [
  | none ↦ err (read_mmdb mmdb)
  | some bytes ↦ do
    opened ← map_err open_mmdb (reader bytes)
    items ← map_err iterate opened
    networks ← collect items
    cidrs ← build_country_cidrs networks code
    ok (country_text code cidrs)
]

-- The temporary file beside a cache file.
unfoldable pub temporary : Text → Text
temporary path = with_extension path (codes "txt.tmp")

unfoldable pub write_atomic : Os → Text → Text → Disk → Result CountryError (Unit {0}) × Disk
unfolding temporary
write_atomic os path text disk =
    let tmp = temporary path in
    let (written, disk') = write os tmp (as_bytes text) disk in
    let (renamed, disk'') = rename os tmp path disk' in
    if written
    then (if renamed then (ok tt, disk'') else (err (rename_file path), disk''))
    else (err (write_file tmp), disk')

unfoldable pub cache_file : Text → Text → ℕ → Text
cache_file dir code mmdb_len =
    path_join dir (codes "chnroute-" ++ code ++ codes "-" ++ show_u64 mmdb_len ++ codes ".txt")

-- `meta.len() > 0` of a file that is there
pub is_cached : Option ℕ → Bool
is_cached none = false
is_cached (some len) = ltb 0 len

-- The slow path: build the text and write it.
pub extract : Reader → Os → Text → Text → Text → Disk → Result CountryError Text × Disk
extract reader os mmdb code file disk = elim (build_country_text reader os disk mmdb code) [
  | err e ↦ (err e, disk)
  | ok text ↦
      let (outcome, disk') = write_atomic os file text disk in
      elim outcome [ err e ↦ (err e, disk') | ok done ↦ (ok file, disk') ]
]

pub find_or_extract : Reader → Os → Text → Text → Text → Disk → Result CountryError Text × Disk
unfolding is_cached extract
find_or_extract reader os mmdb code file disk =
    if is_cached (file_len disk file)
    then (ok file, disk)
    else extract reader os mmdb code file disk

unfoldable pub ensure_country_file :
    Reader → Os → Text → Text → Text → Disk → Result CountryError Text × Disk
unfolding find_or_extract
ensure_country_file reader os mmdb country dir disk =
    let code = normalize_country country in
    if is_empty code then (err empty_code, disk) else elim (file_len disk mmdb) [
      | none ↦ (err (stat_mmdb mmdb), disk)
      | some mmdb_len ↦
          if os.makes_dir dir
          then find_or_extract reader os mmdb code (cache_file dir code mmdb_len) disk
          else (err (create_dir dir), disk)
    ]
