-- ===== src/Ffi/Tests.antt =====
-- The C interface at concrete calls.
use shadowvpn_ios.Prelude.{
  ℕ, ◌^◌, ◌<◌, ◌≡◌, ◌⊎◌, sym, subst, ◌∙◌, refl, true, Option, none, some, List, [], ◌∷◌, drop, take,
  length, replicate, arith,
}
use shadowvpn_ios.Prelude.Result.{ok, ok_injective}
use shadowvpn_ios.Text.{codes, as_bytes, utf8}
use shadowvpn_ios.Country.Cache.{ensure_country_file}
use shadowvpn_ios.Country.Cache.Samples.{
  willing, disk, mmdb, country, dir, reader, path, first_call,
}
use shadowvpn_ios.Config.{RawConfig, full, plain}
use shadowvpn_ios.Crypto.Toy.{toy}
use shadowvpn_ios.Logging.{Log}
use shadowvpn_ios.Engine.Session.{pos, initial}
use shadowvpn_ios.Ffi.{Host, Env, from_ptr, cstr_to_str}
use shadowvpn_ios.Ffi.Strings.{IsCString, cstr_to_str-as_bytes}
use shadowvpn_ios.Ffi.Routes.{copy_out, svpn_country_cidrs_file}
use shadowvpn_ios.Ffi.Routes.Buffer.{copy_out-Bounded}
use shadowvpn_ios.Ffi.Routes.Calls.{Follows, svpn_country_cidrs_file-Decides}
use shadowvpn_ios.Ffi.Tun.{Platform, svpn_tun_start, svpn_tun_ingest}
use shadowvpn_ios.Ffi.Tun.Contract.{
  Call, start_call, ingest_call, stop_call, is_running_call, takes_step, sending_fails_step,
}
use shadowvpn_ios.Ffi.Tun.Starts.{Startable, Succeeds, Fails, svpn_tun_start-Decides}

abbrev log : Log
log = record {
  initialized = true;
  installed = true;
  hooked = true;
  os_log = [];
  file = none;
  disk = disk;
}

abbrev host : Host
host = record { process = initial; log = log; last_error = λ t. [] }

abbrev env : Env
env = record {
  thread = 1;
  secs = 0;
  os = willing;
  passes = λ installed level. installed;
  debug_text = λ s. [];
}

-- An empty packet is answered with 0 by a tunnel that is not running.
empty_packet : (svpn_tun_ingest (some []) 0 host).0 ≡ pos 0
unfolding svpn_tun_ingest
empty_packet = refl

copy_out-Bounded_example :
    let memory : List ℕ = replicate 6 7 in
    (length (copy_out (codes "path") 3 memory) ≡ 6)
    × (drop 3 (copy_out (codes "path") 3 memory) ≡ drop 3 memory)
    × (from_ptr (copy_out (codes "path") 3 memory) ≡ take 2 (codes "path"))
copy_out-Bounded_example =
    copy_out-Bounded (codes "path") (replicate 6 7) 3 (omega arith) (omega arith) (ground arith)

mmdb_read : cstr_to_str (some (b'm' ∷ 0 ∷ [])) ≡ some mmdb
unfolding as_bytes utf8
mmdb_read = cstr_to_str-as_bytes mmdb [] (ground arith) (ground arith)

-- What follows the NUL is not read.
country_read : cstr_to_str (some (b'c' ∷ b'n' ∷ 0 ∷ b'x' ∷ [])) ≡ some country
unfolding as_bytes utf8
country_read = cstr_to_str-as_bytes country (b'x' ∷ []) (ground arith) (ground arith)

dir_read : cstr_to_str (some (b'c' ∷ 0 ∷ [])) ≡ some dir
unfolding as_bytes utf8
dir_read = cstr_to_str-as_bytes dir [] (ground arith) (ground arith)

abbrev c_mmdb : Option (List ℕ)
c_mmdb = some (b'm' ∷ 0 ∷ [])

abbrev c_country : Option (List ℕ)
c_country = some (b'c' ∷ b'n' ∷ 0 ∷ b'x' ∷ [])

abbrev c_dir : Option (List ℕ)
c_dir = some (b'c' ∷ 0 ∷ [])

abbrev memory : List ℕ
memory = replicate 64 7

abbrev buffer : Option (List ℕ)
buffer = some memory

path-IsCString : IsCString (as_bytes path) × (length (as_bytes path) < 2 ^ 31)
unfolding as_bytes utf8
path-IsCString = (ground arith, omega arith)

svpn_country_cidrs_file-Decides_example :
    Follows env memory 4 host
      (ensure_country_file reader willing mmdb country dir disk).0
      (svpn_country_cidrs_file env reader c_mmdb c_country c_dir buffer (pos 4) host)
svpn_country_cidrs_file-Decides_example =
    svpn_country_cidrs_file-Decides env reader c_mmdb c_country c_dir memory 4 host mmdb country dir
      mmdb_read country_read dir_read (omega arith) (omega arith)
      λ p e.
        subst (λ x. IsCString (as_bytes x) × (length (as_bytes x) < 2 ^ 31))
          (ok_injective (sym first_call ∙ e)) path-IsCString

abbrev raw_config : RawConfig
raw_config = record {
  server = codes "vpn.example.com:8388";
  password = codes "secret";
  cipher = codes "aes-256-gcm";
  mode = full;
  mtu = none;
  dns_local = none;
  dns_remote = none;
  chnroute_path = none;
  obfs = plain;
}

abbrev platform : Platform
platform = record {
  primitives = toy;
  json = λ text. ok raw_config;
  connects = true;
  sockets = record { binds = true; adopts = true };
}

-- The second packet finds that the ingress task has ended.
abbrev history : List (Env × Call)
history =
    (env, start_call platform c_dir)
    ∷ (env, ingest_call buffer 40)
    ∷ (env, is_running_call)
    ∷ (env, takes_step)
    ∷ (env, sending_fails_step)
    ∷ (env, ingest_call buffer 40)
    ∷ (env, stop_call)
    ∷ (env, ingest_call buffer 40)
    ∷ []

svpn_tun_start-Decides_example :
    (Startable platform dir initial × Succeeds host (svpn_tun_start env platform c_dir host))
    ⊎ (¬ Startable platform dir initial) × Fails env host (svpn_tun_start env platform c_dir host)
svpn_tun_start-Decides_example = svpn_tun_start-Decides env platform c_dir host dir dir_read
