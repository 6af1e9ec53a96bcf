-- ===== src/Country/Main.antt =====
-- core/rust/chnroute-gen/src/main.rs: the tool that writes the bundled route file.
pub mod Bundled
mod Tests
use mathlib.Core.List.{reverse, foldl}
use shadowvpn_ios.Prelude.{
  ℕ, Bool, true, false, Option, none, some, List, [], ◌∷◌, ◌++◌, map, length, if◌then◌else◌,
}
use shadowvpn_ios.Prelude.Result.{Result, ok, err, ◌>>=◌, map_err}
use shadowvpn_ios.Text.{Text, codes, as_bytes}
use shadowvpn_ios.Text.Print.{show_u64, join, line_feed}
use shadowvpn_ios.Files.{Disk, Os, read, write}
use shadowvpn_ios.Chnroute.{Range, sort_unstable}
use shadowvpn_ios.Country.{
  Cidr, Network, CountryError, open_mmdb, read_mmdb, iterate, write_file, select, merge_step,
  gen_range_to_cidrs,
}
use shadowvpn_ios.Country.Cache.{Reader, collect, cidr_text}

-- The database, the file to write, and the country, which is CN where it is left out.
pub record Args : Type 0 where
  pub db : Text
  pub out : Text
  pub country : Text

-- The command line without the program's name.
unfoldable pub parse_args : List Text → Option Args
parse_args (db ∷ out ∷ []) = some (record { db = db; out = out; country = codes "CN" })
parse_args (db ∷ out ∷ country ∷ rest) = some (record { db = db; out = out; country = country })
parse_args _ = none

pub gen_cidrs_of : List Range → List Cidr
gen_cidrs_of [] = []
gen_cidrs_of ((s, e) ∷ rs) = gen_range_to_cidrs s e ++ gen_cidrs_of rs

-- The CIDRs of the networks of a country, which may be none.
unfoldable pub gen_cidrs : List Network → Text → List Cidr
unfolding gen_cidrs_of
gen_cidrs networks country =
    gen_cidrs_of (reverse (foldl merge_step [] (sort_unstable (select country networks))))

pub gen_first_line : Text → Text
gen_first_line country =
    codes "# chnroute ("
    ++ country
    ++ codes ") — generated once from a MaxMind GeoLite2 Country mmdb"

pub gen_second_line : ℕ → Text
gen_second_line count =
    codes "# by core/rust/chnroute-gen. " ++ show_u64 count ++ codes " CIDR ranges."

unfoldable pub gen_text : Text → List Cidr → Text
unfolding gen_first_line gen_second_line
gen_text country cidrs =
    gen_first_line country
    ++ line_feed
      ∷ (gen_second_line (length cidrs)
          ++ line_feed ∷ (join (line_feed ∷ []) (map cidr_text cidrs) ++ line_feed ∷ []))

-- From the database's file to the text.
unfoldable pub gen_build : Reader → Os → Disk → Args → Result CountryError Text
gen_build reader os disk args = elim (read os disk args.db) [
  | none ↦ err (read_mmdb args.db)
  | some bytes ↦ do
    opened ← map_err open_mmdb (reader bytes)
    items ← map_err iterate opened
    networks ← collect items
    ok (gen_text args.country (gen_cidrs networks args.country))
]

-- `main` behind the command line: whether it succeeds, and the disk.
unfoldable pub gen_run : Reader → Os → Args → Disk → Result CountryError (Unit {0}) × Disk
gen_run reader os args disk = elim (gen_build reader os disk args) [
  | err e ↦ (err e, disk)
  | ok text ↦
      let (written, disk') = write os args.out (as_bytes text) disk in
      if written then (ok tt, disk') else (err (write_file args.out), disk')
]
