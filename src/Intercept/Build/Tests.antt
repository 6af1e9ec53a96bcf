-- ===== src/Intercept/Build/Tests.antt =====
-- The interceptor that is built on a country's file.
use shadowvpn_ios.Prelude.{◌≡◌, ◌↔◌, refl, true, [], ◌∷◌, Any}
use shadowvpn_ios.Crypto.Toy.{toy}
use shadowvpn_ios.Country.{normalize_country}
use shadowvpn_ios.Country.Build.{Holds}
use shadowvpn_ios.Country.Cache.Samples.{
  willing, mmdb, database, disk, items, networks, reader, country, dir, path, found, not_cached,
  readable, collected, valid, first_call,
}
use shadowvpn_ios.Intercept.{is_domestic}
use shadowvpn_ios.Intercept.Build.Loaded.{new_interceptor-country}
use shadowvpn_ios.Intercept.Build.Samples.{cfg, sockets, setup, built}

new_interceptor-country_example :
    (is_domestic setup (0x01000105 ∷ []) ≡ true)
    ↔ Any (Holds (normalize_country country) 0x01000105) networks
new_interceptor-country_example =
    new_interceptor-country reader willing mmdb country dir disk 3 database items networks path toy
      willing sockets cfg setup (0xDF050505, 53) 0x01000105 [] found refl not_cached readable refl
      collected valid refl first_call refl built
