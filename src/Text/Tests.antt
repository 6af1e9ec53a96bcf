-- ===== src/Text/Tests.antt =====
-- Runs of the IPv4 parser.
use shadowvpn_ios.Prelude.{◌≡◌, refl, none, some}
use shadowvpn_ios.Text.{codes, parse_ipv4}

parse_ipv4_example : parse_ipv4 (codes "1.0.1.0") ≡ some 0x01000100
unfolding parse_ipv4
parse_ipv4_example = refl

parse_ipv4_rejects : parse_ipv4 (codes "1.0.01.0") ≡ none
unfolding parse_ipv4
parse_ipv4_rejects = refl
