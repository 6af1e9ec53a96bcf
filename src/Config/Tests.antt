-- ===== src/Config/Tests.antt =====
-- The properties at a concrete configuration, over the toy primitives.
use shadowvpn_ios.Prelude.{◌≡◌, refl, none, some, inr}
use shadowvpn_ios.Prelude.Result.{Result, ok}
use shadowvpn_ios.Text.{Text, codes, trim}
use shadowvpn_ios.Crypto.{aes256_gcm, from_name}
use shadowvpn_ios.Crypto.Toy.{toy}
use shadowvpn_ios.Config.{
  chinadns, plain, RawConfig, RuntimeConfig, from_json, validate, check_chinadns, build,
}
use shadowvpn_ios.Config.Validation.{IsReady, from_json-IsReady, from_json_accepts}

abbrev raw_config : RawConfig
raw_config = record {
  server = codes "vpn.example.com:8388";
  password = codes "secret";
  cipher = codes "aes-256-gcm";
  mode = chinadns;
  mtu = none;
  dns_local = some (codes "223.5.5.5:53");
  dns_remote = some (codes "8.8.8.8:53");
  chnroute_path = some (codes "/chnroute.txt");
  obfs = plain;
}

abbrev reader : Text → Result Text RawConfig
reader json = ok raw_config

abbrev accepted : RuntimeConfig
accepted = build toy raw_config aes256_gcm

accepts : from_json toy reader (codes "{}") ≡ ok accepted
unfolding from_json validate check_chinadns trim from_name
accepts = refl

from_json-IsReady_example :
    (raw : RawConfig) × (reader (codes "{}") ≡ ok raw) × IsReady toy raw accepted
from_json-IsReady_example = from_json-IsReady toy reader (codes "{}") accepted accepts

from_json_accepts_example :
    (cfg : RuntimeConfig) × (from_json toy reader (codes "{}") ≡ ok cfg)
    × IsReady toy raw_config cfg
unfolding trim from_name
from_json_accepts_example =
    from_json_accepts toy reader (codes "{}") raw_config aes256_gcm refl refl refl
      (inr (refl, refl, refl))
