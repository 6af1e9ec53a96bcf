-- ===== src/Ffi/Routes.antt =====
-- lib.rs, `svpn_country_cidrs_file`: the path of a country's file, in the caller's buffer.
pub mod Buffer
pub mod Calls
use shadowvpn_ios.Prelude.{
  ℕ, zero, suc, ◌+◌, ◌-◌, ◌%◌, ◌^◌, min, Option, none, some, List, ◌∷◌, ◌++◌, take, drop, length,
  ltb, if◌then◌else◌,
}
use shadowvpn_ios.Prelude.Result.{ok, err}
use shadowvpn_ios.Text.{Text, codes, as_bytes}
use shadowvpn_ios.Country.{
  CountryError, empty_code, no_networks, stat_mmdb, create_dir, read_mmdb, write_file, rename_file,
  open_mmdb, iterate, decode_network, read_network, decode_country,
}
use shadowvpn_ios.Country.Cache.{Reader, ensure_country_file}
use shadowvpn_ios.Logging
use shadowvpn_ios.Engine.Session.{ℤ, pos, negsuc}
use shadowvpn_ios.Ffi.{Host, Env, cstr_to_str, set_error, fail}

-- The messages of country.rs; `e` is the text of an I/O error.
unfoldable pub country_message : Text → CountryError → Text
country_message e empty_code = codes "country code is empty / not alphanumeric"
country_message e (no_networks code) = codes "no IPv4 networks found for country " ++ code
country_message e (stat_mmdb path) = codes "stat mmdb " ++ path ++ codes ": " ++ e
country_message e (create_dir path) = codes "create cache dir " ++ path ++ codes ": " ++ e
country_message e (read_mmdb path) = codes "read mmdb " ++ path ++ codes ": " ++ e
country_message e (write_file path) = codes "write " ++ path ++ codes ": " ++ e
country_message e (rename_file path) = codes "rename into " ++ path ++ codes ": " ++ e
country_message e (open_mmdb text) = codes "open mmdb: " ++ text
country_message e (iterate text) = codes "iterate mmdb networks: " ++ text
country_message e (decode_network text) = codes "decode mmdb network: " ++ text
country_message e (read_network text) = codes "read mmdb network: " ++ text
country_message e (decode_country text) = codes "decode mmdb country: " ++ text

-- A `usize` as a `c_int`.
unfoldable pub to_c_int : ℕ → ℤ
to_c_int n = let m = n % 2 ^ 32 in if ltb m (2 ^ 31) then pos m else negsuc (2 ^ 32 - m - 1)

-- The copy into the caller's buffer, which holds `cap` bytes at least.
unfoldable pub copy_out : List ℕ → ℕ → List ℕ → List ℕ
copy_out bytes cap memory =
    let copy = min (length bytes) (cap - 1) in take copy bytes ++ 0 ∷ drop (copy + 1) memory

unfoldable pub write_out : List ℕ → Option (List ℕ) → ℤ → Option (List ℕ)
unfolding copy_out
write_out bytes none cap = none
write_out bytes (some memory) (negsuc n) = some memory
write_out bytes (some memory) (pos zero) = some memory
write_out bytes (some memory) (pos (suc cap)) = some (copy_out bytes (suc cap) memory)

-- The result of a resolved path: its length, and the buffer.
pub answer_path : Text → Option (List ℕ) → ℤ → ℤ × Option (List ℕ)
unfolding to_c_int write_out
answer_path path out cap =
    let bytes = as_bytes path in (to_c_int (length bytes), write_out bytes out cap)

pub with_paths :
    Env → Reader → Text → Text → Text → Option (List ℕ) → ℤ → Host → (ℤ × Option (List ℕ)) × Host
unfolding answer_path fail country_message
with_paths env reader mmdb country dir out cap h =
    let (result, disk) = ensure_country_file reader env.os mmdb country dir h.log.disk in
    let h' = record h { log = record h.log { disk = disk } } in
    elim result [
      | err e ↦
          let msg = country_message env.os.error_text e in
          ((negsuc 0, out), fail env (codes "svpn_country_cidrs_file ERROR: ") msg h')
      | ok path ↦ (answer_path path out cap, h')
    ]

-- `out` is the memory at the caller's buffer; the second result is that memory afterwards.
unfoldable pub svpn_country_cidrs_file :
    Env
    → Reader
    → Option (List ℕ)
    → Option (List ℕ)
    → Option (List ℕ)
    → Option (List ℕ)
    → ℤ
    → Host
    → (ℤ × Option (List ℕ)) × Host
unfolding with_paths
svpn_country_cidrs_file env reader mmdb_path country cache_dir out cap h =
    let refused : (ℤ × Option (List ℕ)) × Host = (
      (negsuc 0, out),
      set_error env (codes "svpn_country_cidrs_file: a NULL / non-utf-8 argument") h,
    ) in
    elim (cstr_to_str mmdb_path) [
      | none ↦ refused
      | some mmdb ↦ elim (cstr_to_str country) [
        | none ↦ refused
        | some code ↦ elim (cstr_to_str cache_dir) [
          | none ↦ refused
          | some dir ↦ with_paths env reader mmdb code dir out cap h
        ]
      ]
    ]
