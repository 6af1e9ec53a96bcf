-- ===== src/Text/Samples.antt =====
-- Resolver addresses.
use shadowvpn_ios.Prelude.{◌≡◌, refl, none, some}
use shadowvpn_ios.Text.{codes, split_once, parse_sockaddr_v4, parse_port, parse_ipv4}

pub near_runs : parse_sockaddr_v4 (codes "223.5.5.5:53") ≡ some (0xDF050505, 53)
unfolding parse_sockaddr_v4 split_once parse_port parse_ipv4
near_runs = refl

pub far_runs : parse_sockaddr_v4 (codes "8.8.8.8:53") ≡ some (0x08080808, 53)
unfolding parse_sockaddr_v4 split_once parse_port parse_ipv4
far_runs = refl

no_port : parse_sockaddr_v4 (codes "8.8.8.8") ≡ none
unfolding parse_sockaddr_v4 split_once
no_port = refl
