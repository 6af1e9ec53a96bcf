-- ===== src/Inspect/Hello/Tests.antt =====
-- A packet with a ClientHello.
use shadowvpn_ios.Prelude.{◌≡◌, refl, [], ◌∷◌, ◌++◌, replicate, arith}
use shadowvpn_ios.Prelude.Outcome.{ret}
use shadowvpn_ios.Text.{codes, as_bytes}
use shadowvpn_ios.Inspect.{tls, describe}
use shadowvpn_ios.Inspect.Hello.{
  host_name, other, Hello, entries, IsHello, IsExtension, client_hello, test_hello, server_of,
}
use shadowvpn_ios.Inspect.Flows.{describe_tls}
use shadowvpn_ios.Inspect.Samples.{ip, tcp, ip-IsIpHeader, tls-IsTcpHeader}
use shadowvpn_ios.Text.Ascii.{ascii-IsScalar}
use shadowvpn_ios.Inspect.Hello.{host_entry, extension_type, extension_body}

-- A hello with an extension in front of server_name.
abbrev hello : Hello
hello = record (test_hello (codes "a.com")) {
  session_id = replicate 32 1;
  extensions = other 23 [] ∷ host_name (codes "a.com") ∷ [];
}

hello-IsHello : IsHello hello
unfolding entries extension_type extension_body host_entry IsExtension as_bytes
hello-IsHello = record {
  version_len = refl;
  random_len = refl;
  session_id_len = omega arith;
  cipher_suites_len = omega arith;
  compression_len = omega arith;
  extensions_len = omega arith;
  each = ((omega arith, omega arith), (ascii-IsScalar (codes "a.com") (omega arith), tt));
}

describe_tls_example :
    describe (ip ++ (tcp 1 187 ++ (client_hello hello ++ (0 ∷ [])))) ≡ ret (tls (codes "a.com"))
unfolding server_of as_bytes
describe_tls_example =
    describe_tls ip (tcp 1 187) (0 ∷ []) hello 5 5 ip-IsIpHeader tls-IsTcpHeader hello-IsHello
