-- ===== src/Protocol/Sizes.antt =====
-- vendor/protocol.rs: the receive buffer of the engine.
use shadowvpn_ios.Prelude.{ℕ, ◌+◌, ◌≤◌, ◌≡◌, List, length, arith}
use shadowvpn_ios.Prelude.Result.{ok}
use shadowvpn_ios.Crypto.{Primitives, PrimitiveLaws, Cipher, salt_len, encrypt_packet}
use shadowvpn_ios.Crypto.Envelope.{decrypt-encrypt}
use shadowvpn_ios.Obfs.{QuicObfs, quic_wrap, default_dcid_len, max_header}
use shadowvpn_ios.Obfs.Quic.{length-quic_wrap}
use shadowvpn_ios.Protocol.{max_ip_packet, max_datagram_size}

-- The encrypted form of an IP packet of at most `max_ip_packet` bytes, sealed with a salt of the
-- cipher's length and wrapped in a QUIC prefix with a connection id of the default length, fits the
-- egress buffer of `max_datagram_size + max_header`.
encrypted_fits :
    (p : Primitives)
    → PrimitiveLaws p
    → (c : Cipher) (salt master_key plaintext : List ℕ) (rnd : ℕ) (q : QuicObfs)
    → length salt ≡ salt_len c
    → length plaintext ≤ max_ip_packet
    → length q.dcid ≡ default_dcid_len
    → (datagram : List ℕ) × (encrypt_packet p c salt master_key plaintext ≡ ok datagram)
      × (length (quic_wrap rnd q datagram).0 ≤ max_datagram_size c + max_header)
unfolding max_datagram_size
encrypted_fits p laws c salt master_key plaintext rnd q hs hp hq =
    let (datagram, e, l, _, _) = decrypt-encrypt p laws c salt master_key plaintext hs hp in
    (datagram, e, omega (arith, length-quic_wrap rnd q datagram))
