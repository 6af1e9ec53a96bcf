-- ===== src/Intercept/Build/Samples.antt =====
-- A configuration, and the interceptor that is built for it on a country's file.
use shadowvpn_ios.Prelude.{◌≡◌, refl, true, some, replicate}
use shadowvpn_ios.Prelude.Result.{ok}
use shadowvpn_ios.Text.{codes}
use shadowvpn_ios.Text.Samples.{near_runs, far_runs}
use shadowvpn_ios.Config.{RuntimeConfig, chinadns, plain}
use shadowvpn_ios.Crypto.{aes128_gcm}
use shadowvpn_ios.Crypto.Toy.{toy}
use shadowvpn_ios.Files.{Disk}
use shadowvpn_ios.Chnroute.{ChnRoute}
use shadowvpn_ios.Chnroute.Load.{load}
use shadowvpn_ios.Country.Cache.{ensure_country_file}
use shadowvpn_ios.Country.Cache.Served.{ensure_country_file-IsLoaded}
use shadowvpn_ios.Country.Cache.Samples.{
  willing, mmdb, database, disk, items, networks, reader, country, dir, path, found, not_cached,
  readable, collected, valid, first_call,
}
use shadowvpn_ios.Intercept.{Setup}
use shadowvpn_ios.Intercept.Build.{Sockets, new_interceptor}

abbrev pub after : Disk
after = (ensure_country_file reader willing mmdb country dir disk).1

abbrev pub cfg : RuntimeConfig
cfg = record {
  server = codes "192.0.2.1:8388";
  cipher = aes128_gcm;
  master_key = replicate 16 1;
  mode = chinadns;
  mtu = 1400;
  dns_local = some (codes "223.5.5.5:53");
  dns_remote = some (codes "8.8.8.8:53");
  chnroute_path = some path;
  obfs = plain;
}

abbrev pub sockets : Sockets
sockets = record { binds = true; adopts = true }

pub loaded : (table : ChnRoute) × (load willing after path ≡ some table)
loaded =
    let (table, e, serves) =
      ensure_country_file-IsLoaded reader willing willing mmdb country dir disk 3 database items
        networks path found refl not_cached readable refl collected valid refl first_call in
    (table, e)

abbrev pub setup : Setup
setup = record {
  primitives = toy;
  chnroute = loaded.0;
  dns_remote_ip = 0x08080808;
  dns_remote_port = 53;
  cipher = aes128_gcm;
  master_key = replicate 16 1;
}

pub built : new_interceptor toy willing after sockets cfg ≡ ok (setup, (0xDF050505, 53))
unfolding new_interceptor
built = rw (loaded.1, near_runs, far_runs) refl
