-- ===== src/Country/Cache/Tests.antt =====
-- The properties at a small database.
use shadowvpn_ios.Prelude.{◌≡◌, refl, some}
use shadowvpn_ios.Prelude.Result.{ok}
use shadowvpn_ios.Text.Print.{digits_of, show_u64}
use shadowvpn_ios.Files.{
  Disk, put, file_len, read, write, rename, path_join, ends_in_slash, with_extension,
  drop_extension,
}
use shadowvpn_ios.Chnroute.{sort_unstable}
use shadowvpn_ios.Country.{
  select, merge_step, cidrs_of, range_to_cidrs, cidrs_loop, zeros_loop, log2_loop,
  normalize_country, build_country_cidrs,
}
use shadowvpn_ios.Country.Cache.{
  collect, build_country_text, temporary, write_atomic, cache_file, is_cached, extract,
  find_or_extract, ensure_country_file,
}
use shadowvpn_ios.Country.Cache.Kept.{Extracted, ensure_country_file-Extracted}
use shadowvpn_ios.Country.Cache.Served.{
  IsLoaded, ensure_country_file-IsLoaded, ensure_country_file_again,
}
use shadowvpn_ios.Country.Cache.Samples.{
  willing, mmdb, database, disk, items, networks, reader, country, dir, path, found, not_cached,
  readable, collected, valid, first_call,
}

-- The disk after the first call.
abbrev after : Disk
after = (ensure_country_file reader willing mmdb country dir disk).1

same_size : file_len after mmdb ≡ some 3
unfolding ensure_country_file find_or_extract extract is_cached file_len cache_file
    normalize_country path_join ends_in_slash show_u64 digits_of build_country_text read collect
    build_country_cidrs select merge_step cidrs_of range_to_cidrs cidrs_loop zeros_loop log2_loop
    sort_unstable write_atomic temporary with_extension drop_extension write rename put
same_size = refl

ensure_country_file-Extracted_example :
    Extracted reader willing mmdb
      (normalize_country country)
      (cache_file dir (normalize_country country) 3)
      disk
      (ensure_country_file reader willing mmdb country dir disk)
ensure_country_file-Extracted_example =
    ensure_country_file-Extracted reader willing mmdb country dir disk 3 found refl not_cached

ensure_country_file-IsLoaded_example :
    IsLoaded willing after path (normalize_country country) networks
ensure_country_file-IsLoaded_example =
    ensure_country_file-IsLoaded reader willing willing mmdb country dir disk 3 database items
      networks path found refl not_cached readable refl collected valid refl first_call

ensure_country_file_again_example :
    ensure_country_file reader willing mmdb country dir after ≡ (ok path, after)
ensure_country_file_again_example =
    ensure_country_file_again reader reader willing willing mmdb country dir disk 3 path found refl
      refl first_call same_size
