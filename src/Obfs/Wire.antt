-- ===== src/Obfs/Wire.antt =====
-- obfs.rs: both framings behind `Obfuscator`, as the engine uses them.
use shadowvpn_ios.Prelude.{ℕ, ◌≡◌, some, List, length, All, IsByte}
use shadowvpn_ios.Obfs.{Obfuscator, quic, base64, wrap, unwrap}
use shadowvpn_ios.Obfs.Quic.{quic_unwrap-wrap}
use shadowvpn_ios.Obfs.Base64.{base64_decode-encode}

-- The two ends select the same variant; for QUIC they agree on the length of the connection id.
abbrev pub IsPeer : Obfuscator → Obfuscator → Type 0
IsPeer (quic q) (quic p) = p.dcid_len ≡ length q.dcid
IsPeer base64 base64 = Unit
IsPeer (quic q) base64 = ⊥
IsPeer base64 (quic p) = ⊥

-- What one end wraps, with any random byte, the other end unwraps to the same datagram of bytes, if the
-- two select the same variant and, for QUIC, agree on the length of the connection id.
pub unwrap-wrap :
    (rnd : ℕ) (sender receiver : Obfuscator) (datagram : List ℕ)
    → IsByte rnd
    → All IsByte datagram
    → IsPeer sender receiver
    → unwrap receiver (wrap rnd sender datagram).0 ≡ some datagram
unfolding wrap unwrap
unwrap-wrap rnd (quic q) (quic p) datagram r h e = quic_unwrap-wrap rnd q p datagram r e
unwrap-wrap rnd base64 base64 datagram r h e = base64_decode-encode datagram h
unwrap-wrap rnd (quic q) base64 datagram r h e = absurd e
unwrap-wrap rnd base64 (quic p) datagram r h e = absurd e
