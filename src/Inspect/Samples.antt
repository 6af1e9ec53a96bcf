-- ===== src/Inspect/Samples.antt =====
-- Headers in front of a payload to a web server.
use shadowvpn_ios.Prelude.{ℕ, refl, List, ◌∷◌, replicate, arith}
use shadowvpn_ios.Inspect.Flows.{IsIpHeader, IsTcpHeader}

-- An IPv4 header for TCP, and a TCP header to a port below 256.
abbrev pub ip : List ℕ
ip = 0x45 ∷ 0 ∷ 0 ∷ 0 ∷ 0 ∷ 0 ∷ 0x40 ∷ 0 ∷ 64 ∷ 6 ∷ replicate 10 7

pub ip-IsIpHeader : IsIpHeader ip 6 5
ip-IsIpHeader = record {
  at_least = omega arith;
  at_most = omega arith;
  len = refl;
  version_ihl = refl;
  protocol = refl;
}

abbrev pub tcp : ℕ → ℕ → List ℕ
tcp hi lo = 0xC0 ∷ 0 ∷ hi ∷ lo ∷ 0 ∷ 0 ∷ 0 ∷ 1 ∷ 0 ∷ 0 ∷ 0 ∷ 1 ∷ 0x50 ∷ replicate 7 0

pub web-IsTcpHeader : IsTcpHeader (tcp 0 80) 80 5
web-IsTcpHeader = record {
  at_least = omega arith;
  at_most = omega arith;
  len = refl;
  port_hi = refl;
  port_lo = refl;
  data_offset = refl;
}

pub tls-IsTcpHeader : IsTcpHeader (tcp 1 187) 443 5
tls-IsTcpHeader = record {
  at_least = omega arith;
  at_most = omega arith;
  len = refl;
  port_hi = refl;
  port_lo = refl;
  data_offset = refl;
}
