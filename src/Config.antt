-- ===== src/Config.antt =====
-- core/rust/shadowvpn-ios-ffi/src/config.rs: the runtime configuration. The JSON parser is a parameter
-- of `from_json`; the messages are constructors of `ConfigError`.
pub mod Validation
mod Tests
use shadowvpn_ios.Prelude.{
  ℕ, Bool, true, false, ◌&&◌, ◌||◌, Option, none, some, List, [], ◌∷◌, if◌then◌else◌,
}
use shadowvpn_ios.Prelude.Result.{Result, ok, err, ◌>>=◌, map_err}
use shadowvpn_ios.Text.{Text, trim, as_bytes}
use shadowvpn_ios.Crypto.{Primitives, Cipher, CryptoError, from_name, key_len, evp_bytes_to_key}
use shadowvpn_ios.Protocol.{default_tun_mtu}

pub data Mode : Type 0 where
  full chnroute chinadns : Mode

pub data ObfsKind : Type 0 where
  plain quic base64 : ObfsKind

pub record RawConfig : Type 0 where
  pub server : Text
  pub password : Text
  pub cipher : Text
  pub mode : Mode
  pub mtu : Option ℕ
  pub dns_local : Option Text
  pub dns_remote : Option Text
  pub chnroute_path : Option Text
  pub obfs : ObfsKind

pub record RuntimeConfig : Type 0 where
  pub server : Text
  pub cipher : Cipher
  pub master_key : List ℕ
  pub mode : Mode
  pub mtu : ℕ
  pub dns_local : Option Text
  pub dns_remote : Option Text
  pub chnroute_path : Option Text
  pub obfs : ObfsKind

pub data ConfigError : Type 0 where
  invalid_json : Text → ConfigError
  server_empty : ConfigError
  unsupported_cipher : CryptoError → ConfigError
  requires_dns_local requires_dns_remote requires_chnroute_path : ConfigError

abbrev pub is_empty : Text → Bool
is_empty [] = true
is_empty (c ∷ s) = false

-- `as_deref().unwrap_or("")`
abbrev pub or_empty : Option Text → Text
or_empty none = []
or_empty (some s) = s

abbrev pub is_blank : Text → Bool
is_blank s = is_empty (trim s)

abbrev pub mtu_or_default : Option ℕ → ℕ
mtu_or_default none = default_tun_mtu
mtu_or_default (some m) = m

abbrev pub is_chinadns : Mode → Bool
is_chinadns full = false
is_chinadns chnroute = false
is_chinadns chinadns = true

-- The part of `from_json` that checks the fields of chinadns mode.
pub check_chinadns : RawConfig → Result ConfigError (Unit {0})
check_chinadns raw =
    if is_chinadns raw.mode
    then (if is_blank (or_empty raw.dns_local)
        then err requires_dns_local
        else if is_blank (or_empty raw.dns_remote)
        then err requires_dns_remote
        else if is_blank (or_empty raw.chnroute_path)
        then err requires_chnroute_path
        else ok tt)
    else ok tt

-- The configuration that `from_json` returns.
pub build : Primitives → RawConfig → Cipher → RuntimeConfig
build p raw c = record {
  server = raw.server;
  cipher = c;
  master_key = evp_bytes_to_key p (as_bytes raw.password) (key_len c);
  mode = raw.mode;
  mtu = mtu_or_default raw.mtu;
  dns_local = raw.dns_local;
  dns_remote = raw.dns_remote;
  chnroute_path = raw.chnroute_path;
  obfs = raw.obfs;
}

-- `from_json` behind the parser.
pub validate : Primitives → RawConfig → Result ConfigError RuntimeConfig
validate p raw = if is_blank raw.server then err server_empty else do
  c ← map_err unsupported_cipher (from_name raw.cipher)
  _ ← check_chinadns raw
  ok (build p raw c)

unfoldable pub from_json :
    Primitives → (Text → Result Text RawConfig) → Text → Result ConfigError RuntimeConfig
unfolding validate check_chinadns build
from_json p from_str json = map_err invalid_json (from_str json) >>= validate p
