-- ===== src/Ffi/Tun.antt =====
-- lib.rs, the calls on the tunnel: start, ingest, stop and the counters.
pub mod Contract
pub mod Starts
use shadowvpn_ios.Prelude.{
  ℕ, zero, suc, Bool, Option, none, some, List, [], ◌++◌, take, if◌then◌else◌,
}
use shadowvpn_ios.Prelude.Result.{Result, ok, err}
use shadowvpn_ios.Text.{Text, codes}
use shadowvpn_ios.Config.{
  RuntimeConfig, ConfigError, invalid_json, server_empty, unsupported_cipher, requires_dns_local,
  requires_dns_remote, requires_chnroute_path, RawConfig, from_json,
}
use shadowvpn_ios.Crypto.{Primitives, CryptoError, unknown_cipher, too_short, hkdf, aead}
use shadowvpn_ios.Text.Print.{show_u64}
use shadowvpn_ios.Files.{Disk}
use shadowvpn_ios.Intercept.{Setup}
use shadowvpn_ios.Intercept.Build.{Sockets, new_interceptor, built_of}
use shadowvpn_ios.Logging
use shadowvpn_ios.Engine.{Plane, traffic}
use shadowvpn_ios.Engine.Session.{
  ℤ, pos, negsuc, StartError, already_running, config, socket, start, stop, stop_blocking,
  is_running, ingest,
}
use shadowvpn_ios.Ffi.{Host, Env, cstr_to_str, set_error, bridge, fail}

-- What `start` uses of other crates: the ciphers, the JSON parser, whether the tunnel's socket binds and
-- connects, and the interceptor's direct socket.
pub record Platform : Type 0 where
  pub primitives : Primitives
  pub json : Text → Result Text RawConfig
  pub connects : Bool
  pub sockets : Sockets

pub crypto_message : CryptoError → Text
crypto_message (unknown_cipher name) = codes "unknown cipher: " ++ name
crypto_message (too_short got need) =
    codes "datagram too short: " ++ show_u64 got ++ codes " bytes, need at least " ++ show_u64 need
crypto_message hkdf = codes "subkey derivation failed"
crypto_message aead = codes "AEAD operation failed (authentication failure or bad key)"

unfoldable pub config_message : ConfigError → Text
unfolding crypto_message
config_message (invalid_json text) = codes "invalid config_json: " ++ text
config_message server_empty = codes "config_json: `server` is empty"
config_message (unsupported_cipher e) =
    codes "config_json: unsupported cipher: " ++ crypto_message e
config_message requires_dns_local = codes "config_json: chinadns mode requires `dns_local`"
config_message requires_dns_remote = codes "config_json: chinadns mode requires `dns_remote`"
config_message requires_chnroute_path = codes "config_json: chinadns mode requires `chnroute_path`"

abbrev pub server_of : Result ConfigError RuntimeConfig → Text
server_of (ok cfg) = cfg.server
server_of (err e) = []

-- The messages of `engine::start`; `e` is the text of an I/O error.
unfoldable pub start_message : Text → Text → StartError → Text
unfolding config_message
start_message e server already_running = codes "svpn data plane already running; stop first"
start_message e server (config x) = config_message x
start_message e server socket =
    codes "failed to bind/connect UDP socket to " ++ server ++ codes ": " ++ e

-- The interceptor that `start` builds, of a configuration that it has accepted.
unfoldable pub built_for : Env → Platform → Disk → Result ConfigError RuntimeConfig → Option Setup
built_for env p disk (err e) = none
built_for env p disk (ok cfg) = built_of (new_interceptor p.primitives env.os disk p.sockets cfg)

pub start_with : Env → Platform → Text → Host → ℤ × Host
unfolding start_message fail
start_with env p json h =
    let parsed = from_json p.primitives p.json json in
    let h' = bridge env (codes "svpn_tun_start") h in
    elim (start p.primitives parsed p.connects (built_for env p h'.log.disk parsed) h'.process) [
      | ok process ↦ (pos 0, record h' { process = process })
      | err e ↦
          let msg = start_message env.os.error_text (server_of parsed) e in
          (negsuc 0, fail env (codes "svpn_tun_start ERROR: ") msg h')
    ]

unfoldable pub svpn_tun_start : Env → Platform → Option (List ℕ) → Host → ℤ × Host
unfolding start_with
svpn_tun_start env p config_json h = elim (cstr_to_str config_json) [
  | none ↦ (negsuc 0, set_error env (codes "config_json is null or not utf-8") h)
  | some json ↦ start_with env p json h
]

-- The slice of `len` bytes that the caller vouches for.
unfoldable pub svpn_tun_ingest : Option (List ℕ) → ℕ → Host → ℤ × Host
svpn_tun_ingest none len h = (pos 0, h)
svpn_tun_ingest (some memory) zero h = (pos 0, h)
svpn_tun_ingest (some memory) (suc n) h =
    let (process, code) = ingest (take (suc n) memory) h.process in
    (code, record h { process = process })

unfoldable pub svpn_tun_stop : Env → Host → Host
svpn_tun_stop env h =
    let h' = bridge env (codes "svpn_tun_stop") h in record h' { process = stop h'.process }

-- `joins` is whether the egress task ends before the join times out.
unfoldable pub svpn_tun_stop_blocking : Env → Bool → Host → Host
svpn_tun_stop_blocking env joins h =
    let h' = bridge env (codes "svpn_tun_stop_blocking") h in
    record h' { process = stop_blocking joins h'.process }

unfoldable pub svpn_is_running : Host → ℤ
svpn_is_running h = if is_running h.process then pos 1 else pos 0

-- A slot that is written unless the pointer is null.
abbrev pub store : Option ℕ → ℕ → Option ℕ
store none n = none
store (some old) n = some n

unfoldable pub svpn_engine_traffic : Plane → Option ℕ → Option ℕ → Option ℕ × Option ℕ
unfolding traffic
svpn_engine_traffic plane up down =
    let (sent, received) = traffic plane in (store up sent, store down received)

-- `measured` is what the system reports.
abbrev pub svpn_resident_bytes : Option ℕ → ℕ
svpn_resident_bytes none = 0
svpn_resident_bytes (some measured) = measured
