-- ===== src/Protocol.antt =====
-- core/rust/shadowvpn-ios-ffi/src/vendor/protocol.rs: the sizes of the tunnel framing.
pub mod Sizes
use shadowvpn_ios.Prelude.{ℕ, ◌+◌}
use shadowvpn_ios.Crypto.{Cipher, salt_len, tag_len}

abbrev pub default_tun_mtu : ℕ
default_tun_mtu = 1400

abbrev pub max_ip_packet : ℕ
max_ip_packet = 65535

unfoldable pub crypto_overhead : Cipher → ℕ
crypto_overhead c = salt_len c + tag_len

unfoldable pub max_datagram_size : Cipher → ℕ
unfolding crypto_overhead
max_datagram_size c = max_ip_packet + crypto_overhead c
