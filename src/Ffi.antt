-- ===== src/Ffi.antt =====
-- core/rust/shadowvpn-ios-ffi/src/lib.rs: the C interface. A pointer is `none` where it is null, and
-- otherwise the bytes from it on. Each call is one step on the state of the process.
pub mod Failures
pub mod Strings
pub mod Routes
pub mod Tun
mod Tests
use shadowvpn_ios.Prelude.{
  ℕ, zero, suc, ◌+◌, ◌-◌, ◌*◌, ◌%◌, ◌^◌, min, Bool, true, false, ◌&&◌, Option, none, some, List, [],
  ◌∷◌, ◌++◌, take, drop, length, ltb, ◌==◌, if◌then◌else◌,
}
use shadowvpn_ios.Prelude.Result.{Result, ok, err}
use shadowvpn_ios.Text.{Text, codes, as_bytes}
use shadowvpn_ios.Text.Utf8.{is_utf8, chars}
use shadowvpn_ios.Config.{
  RuntimeConfig, ConfigError, is_empty, invalid_json, server_empty, unsupported_cipher,
  requires_dns_local, requires_dns_remote, requires_chnroute_path, RawConfig, from_json,
}
use shadowvpn_ios.Crypto.{Primitives, CryptoError, unknown_cipher, too_short, hkdf, aead}
use shadowvpn_ios.Text.Print.{show_u64}
use shadowvpn_ios.Files.{Os}
use shadowvpn_ios.Country.{
  CountryError, empty_code, no_networks, stat_mmdb, create_dir, read_mmdb, write_file, rename_file,
  open_mmdb, iterate, decode_network, read_network, decode_country,
}
use shadowvpn_ios.Country.Cache.{Reader, ensure_country_file}
use shadowvpn_ios.Intercept.{Setup}
use shadowvpn_ios.Logging
use shadowvpn_ios.Logging.{
  Level, error, warn, info, debug, trace, Log, init_os_logger, install_panic_hook, set_log_file,
  log_macro, bridge_log,
}
use shadowvpn_ios.Engine.{Plane}
use shadowvpn_ios.Engine.Session.{
  ℤ, pos, negsuc, Process, StartError, already_running, config, socket, start, stop, stop_blocking,
  is_running, ingest,
}

-- `LAST_ERROR` is a C string for every thread.
pub record Host : Type 0 where
  pub process : Process
  pub log : Log
  pub last_error : ℕ → List ℕ

-- What a call finds outside the crate: the thread it is made on, the time, the operating system, the
-- filter of the `log` crate, and the `Debug` form of an optional string.
pub record Env : Type 0 where
  pub thread : ℕ
  pub secs : ℕ
  pub os : Os
  pub passes : Bool → Level → Bool
  pub debug_text : Option Text → Text

-- The bytes of a C string, up to its NUL.
unfoldable pub from_ptr : List ℕ → List ℕ
from_ptr [] = []
from_ptr (b ∷ bs) = let rest = from_ptr bs in if b == 0 then [] else b ∷ rest

unfoldable pub cstr_to_str : Option (List ℕ) → Option Text
cstr_to_str none = none
cstr_to_str (some memory) =
    if is_utf8 (from_ptr memory) then some (chars (from_ptr memory)) else none

abbrev pub has_nul : List ℕ → Bool
has_nul [] = false
has_nul (b ∷ bs) = if b == 0 then true else has_nul bs

-- `CString::new(msg)`, or `error` where the message holds a NUL.
unfoldable pub to_cstring : List ℕ → List ℕ
to_cstring bytes = if has_nul bytes then as_bytes (codes "error") else bytes

unfoldable pub set_error : Env → Text → Host → Host
unfolding to_cstring
set_error env msg h = record h {
  last_error = λ t. if t == env.thread then to_cstring (as_bytes msg) else h.last_error t;
}

abbrev pub bridge : Env → Text → Host → Host
bridge env msg h = record h { log = bridge_log env.passes env.os env.secs msg h.log }

-- `accepted` is whether the `log` crate takes the logger.
unfoldable pub svpn_core_init : Env → Bool → Host → Host
svpn_core_init env accepted h =
    bridge env (codes "svpn_core_init: os_log initialized")
      (record h { log = install_panic_hook (init_os_logger accepted h.log) })

unfoldable pub level_of : ℤ → Level
level_of (pos n) =
    if n == 0
    then error
    else if n == 1
    then warn
    else if n == 3
    then debug
    else if n == 4
    then trace
    else info
level_of (negsuc n) = info

unfoldable pub svpn_core_log : Env → ℤ → Option (List ℕ) → Host → Host
svpn_core_log env level msg h = elim (cstr_to_str msg) [
  | none ↦ h
  | some text ↦ record h { log = log_macro env.passes env.os env.secs (level_of level) text h.log }
]

-- `filter(|s| !s.is_empty())`
abbrev pub non_empty : Option Text → Option Text
non_empty none = none
non_empty (some s) = if is_empty s then none else some s

pub set_home : Env → Option Text → Host → Host
set_home env none h = h
set_home env (some dir) h = record h { log = set_log_file env.os dir h.log }

unfoldable pub svpn_core_set_home_dir : Env → Option (List ℕ) → Host → Host
unfolding set_home
svpn_core_set_home_dir env dir h =
    let parsed = non_empty (cstr_to_str dir) in
    bridge env (codes "svpn_core_set_home_dir: " ++ env.debug_text parsed) (set_home env parsed h)

unfoldable pub svpn_core_last_error : Env → Host → List ℕ
svpn_core_last_error env h = h.last_error env.thread

-- A failed call: the message is logged behind the prefix and kept for the thread.
unfoldable pub fail : Env → Text → Text → Host → Host
fail env prefix msg h = set_error env msg (bridge env (prefix ++ msg) h)
