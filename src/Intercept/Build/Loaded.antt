-- ===== src/Intercept/Build/Loaded.antt =====
-- dns_intercept.rs, `DnsInterceptor::new`, on the file that country.rs leaves.
use shadowvpn_ios.Prelude.{
  ℕ, ◌≡◌, ◌↔◌, refl, sym, ap, subst, ◌∙◌, Bool, true, false, Option, none, some, List, ◌∷◌, All,
  Any,
}
use shadowvpn_ios.Prelude.Result.{ok, bind-ok, ok_injective}
use shadowvpn_ios.Text.{Text, parse_sockaddr_v4}
use shadowvpn_ios.Config.{RuntimeConfig, or_empty}
use shadowvpn_ios.Crypto.{Primitives}
use shadowvpn_ios.Files.{Disk, Os, file_len, read}
use shadowvpn_ios.Chnroute.{contains}
use shadowvpn_ios.Chnroute.Load.{load}
use shadowvpn_ios.Country.{Network, normalize_country}
use shadowvpn_ios.Country.Build.{IsNetwork, Holds}
use shadowvpn_ios.Country.Cache.{Item, Reader, collect, cache_file, is_cached, ensure_country_file}
use shadowvpn_ios.Country.Cache.Kept.{IsFound}
use shadowvpn_ios.Country.Cache.Served.{ensure_country_file-IsLoaded}
use shadowvpn_ios.Intercept.{Setup, is_domestic}
use shadowvpn_ios.Intercept.Build.{
  BuildError, Sockets, bind_failed, adopt_failed, or_error, check, new_interceptor,
}

some_injective : {A : Type 0} {a b : A} → some a ≡ some b → a ≡ b
some_injective h = cc

or_error-ok :
    {A : Type 0} (e : BuildError) (o : Option A) (a : A) → or_error e o ≡ ok a → o ≡ some a
or_error-ok e none a h = absurd cc
or_error-ok e (some b) a h = ap some (ok_injective {E = BuildError} h)

-- Where the interceptor is built, everything that `new` checks holds, and the setup has what was read.
abbrev pub IsBuilt : Primitives → Os → Disk → Sockets → RuntimeConfig → Setup → ℕ × ℕ → Type 0
IsBuilt p os disk sockets cfg setup dns_local =
    (path : Text) × (cfg.chnroute_path ≡ some path)
    × (load os disk path ≡ some setup.chnroute)
    × (parse_sockaddr_v4 (or_empty cfg.dns_local) ≡ some dns_local)
    × (parse_sockaddr_v4 (or_empty cfg.dns_remote)
        ≡ some (setup.dns_remote_ip, setup.dns_remote_port))
    × (sockets.binds ≡ true)
    × (sockets.adopts ≡ true)
    × (setup.primitives ≡ p)
    × (setup.cipher ≡ cfg.cipher)
    × (setup.master_key ≡ cfg.master_key)

check-ok : (e : BuildError) (b : Bool) {u : Unit {0}} → check e b ≡ ok u → b ≡ true
check-ok e true h = refl
check-ok e false h = absurd cc

-- `DnsInterceptor::new` succeeds only with a route file that can be read, two resolver addresses that
-- parse, and a socket; the setup then has that table, that resolver, and the configuration's cipher and
-- key.
pub new_interceptor-IsBuilt :
    (p : Primitives) (os : Os) (disk : Disk) (sockets : Sockets) (cfg : RuntimeConfig)
    (setup : Setup) (dns_local : ℕ × ℕ)
    → new_interceptor p os disk sockets cfg ≡ ok (setup, dns_local)
    → IsBuilt p os disk sockets cfg setup dns_local
unfolding new_interceptor
new_interceptor-IsBuilt p os disk sockets cfg setup dns_local h =
    let (path, h1, r1) = bind-ok (or_error _ cfg.chnroute_path) (setup, dns_local) h in
    let (table, h2, r2) = bind-ok (or_error _ (load os disk path)) (setup, dns_local) r1 in
    let (near, h3, r3) =
      bind-ok (or_error _ (parse_sockaddr_v4 (or_empty cfg.dns_local))) (setup, dns_local) r2 in
    let (far, h4, r4) =
      bind-ok (or_error _ (parse_sockaddr_v4 (or_empty cfg.dns_remote))) (setup, dns_local) r3 in
    let (u, h5, r5) = bind-ok (check bind_failed sockets.binds) (setup, dns_local) r4 in
    let (w, h6, r6) = bind-ok (check adopt_failed sockets.adopts) (setup, dns_local) r5 in
    let same = ok_injective {E = BuildError} r6 in
    (
      path,
      or_error-ok _ cfg.chnroute_path path h1,
      or_error-ok _ (load os disk path) table h2 ∙ ap (λ r. some (r.0.chnroute)) same,
      or_error-ok _ (parse_sockaddr_v4 (or_empty cfg.dns_local)) near h3 ∙ ap (λ r. some r.1) same,
      or_error-ok _ (parse_sockaddr_v4 (or_empty cfg.dns_remote)) far h4
          ∙ ap (λ r. some (r.0.dns_remote_ip, r.0.dns_remote_port)) same,
      check-ok bind_failed sockets.binds h5,
      check-ok adopt_failed sockets.adopts h6,
      ap (λ r. r.0.primitives) (sym same),
      ap (λ r. r.0.cipher) (sym same),
      ap (λ r. r.0.master_key) (sym same),
    )

-- The route file is the one that `ensure_country_file` returned, the first time for a country: an
-- interceptor that is built on it takes the domestic resolver's answer exactly when the first address of
-- that answer lies in a network of the country, by the database it was made from. The database's file is
-- readable and has valid networks.
pub new_interceptor-country :
    (reader : Reader) (os : Os) (mmdb country dir : Text) (disk : Disk) (n : ℕ) (bytes : List ℕ)
    (items : List Item) (networks : List Network) (path : Text) (p : Primitives) (later : Os)
    (sockets : Sockets) (cfg : RuntimeConfig) (setup : Setup) (dns_local : ℕ × ℕ) (ip : ℕ)
    (ips : List ℕ)
    → IsFound disk mmdb country n
    → os.makes_dir dir ≡ true
    → is_cached (file_len disk (cache_file dir (normalize_country country) n)) ≡ false
    → read os disk mmdb ≡ some bytes
    → reader bytes ≡ ok (ok items)
    → collect items ≡ ok networks
    → All IsNetwork networks
    → later.reads path ≡ true
    → (ensure_country_file reader os mmdb country dir disk).0 ≡ ok path
    → cfg.chnroute_path ≡ some path
    → new_interceptor p later (ensure_country_file reader os mmdb country dir disk).1 sockets cfg
      ≡ ok (setup, dns_local)
    → (is_domestic setup (ip ∷ ips) ≡ true) ↔ Any (Holds (normalize_country country) ip) networks
unfolding is_domestic
new_interceptor-country reader os mmdb country dir disk n bytes items networks path p later sockets
      cfg setup dns_local ip ips found d c e f g valid readable h k made =
    let after = (ensure_country_file reader os mmdb country dir disk).1 in
    let (table, loaded, serves) =
      ensure_country_file-IsLoaded reader os later mmdb country dir disk n bytes items networks path
        found d c e f g valid readable h in
    let (path', k', loaded', near, far, binds, adopts, _, _, _) =
      new_interceptor-IsBuilt p later after sockets cfg setup dns_local made in
    let same : table ≡ setup.chnroute =
      some_injective (sym loaded ∙ ap (load later after) (some_injective (sym k ∙ k')) ∙ loaded') in
    subst (λ t. (contains t ip ≡ true) ↔ Any (Holds (normalize_country country) ip) networks) same
      (serves ip)
