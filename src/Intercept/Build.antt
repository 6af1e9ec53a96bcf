-- ===== src/Intercept/Build.antt =====
-- dns_intercept.rs, `DnsInterceptor::new`, and engine.rs where it builds the interceptor. The direct
-- socket is a parameter: whether it binds and whether tokio adopts it.

pub mod Loaded
pub mod Samples
mod Tests
use shadowvpn_ios.Prelude.{ℕ, Bool, true, false, Option, none, some, List, take, if◌then◌else◌}
use shadowvpn_ios.Prelude.Result.{Result, ok, err, ◌>>=◌}
use shadowvpn_ios.Text.{Text, codes, parse_sockaddr_v4}
use shadowvpn_ios.Config.{RuntimeConfig, or_empty}
use shadowvpn_ios.Crypto.{Primitives}
use shadowvpn_ios.Files.{Disk, Os}
use shadowvpn_ios.Chnroute.{ChnRoute}
use shadowvpn_ios.Chnroute.Load.{load}
use shadowvpn_ios.Intercept.{Setup}

-- The errors, in the order in which they are found.
pub data BuildError : Type 0 where
  chnroute_path_missing : BuildError
  load_failed : Text → BuildError
  bad_dns_local bad_dns_remote : BuildError
  bind_failed adopt_failed : BuildError

pub record Sockets : Type 0 where
  pub binds : Bool
  pub adopts : Bool

-- `ok_or_else`
abbrev pub or_error {ℓ κ} : {E : Type ℓ} {A : Type κ} → E → Option A → Result E A
or_error e none = err e
or_error e (some a) = ok a

-- The `?` on an operation that gives nothing.
abbrev pub check : BuildError → Bool → Result BuildError (Unit {0})
check e false = err e
check e true = ok tt

-- The interceptor's setup, and the address of the domestic resolver.
unfoldable pub new_interceptor :
    Primitives → Os → Disk → Sockets → RuntimeConfig → Result BuildError (Setup × (ℕ × ℕ))
new_interceptor p os disk sockets cfg = do
  path ← or_error chnroute_path_missing cfg.chnroute_path
  table ← or_error (load_failed path) (load os disk path)
  dns_local ← or_error bad_dns_local (parse_sockaddr_v4 (or_empty cfg.dns_local))
  dns_remote ← or_error bad_dns_remote (parse_sockaddr_v4 (or_empty cfg.dns_remote))
  _ ← check bind_failed sockets.binds
  _ ← check adopt_failed sockets.adopts
  ok (
    record {
      primitives = p;
      chnroute = table;
      dns_remote_ip = dns_remote.0;
      dns_remote_port = dns_remote.1;
      cipher = cfg.cipher;
      master_key = cfg.master_key;
    },
    dns_local,
  )

-- What `start` keeps of it: an error means plain forwarding.
unfoldable pub built_of : Result BuildError (Setup × (ℕ × ℕ)) → Option Setup
built_of (err e) = none
built_of (ok (setup, dns_local)) = some setup

-- What a wait on the direct socket ends with.
pub data Received : Type 0 where
  datagram : List ℕ → Received
  failed timed_out : Received

-- `query_direct`: `sends` is whether the query could be sent; at most 1500 bytes are taken.
unfoldable pub query_direct : Bool → Received → Option (List ℕ)
query_direct false received = none
query_direct true (datagram bytes) = some (take 1500 bytes)
query_direct true failed = none
query_direct true timed_out = none
