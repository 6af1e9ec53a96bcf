-- ===== src/Obfs/Shaped.antt =====
-- obfs.rs: what wrapping keeps, and how long it makes a datagram.
use shadowvpn_ios.Prelude.{ℕ, ◌≤◌, List, length, All, IsByte, arith}
use shadowvpn_ios.Obfs.{Obfuscator, quic, base64, quic_wrap, wrap}
use shadowvpn_ios.Obfs.Base64.{base64_encode_printable}
use shadowvpn_ios.Obfs.Quic.{length-quic_wrap}
use shadowvpn_ios.Obfs.Wire.{IsPeer}

-- A connection id of QUIC has at most 20 bytes.
unfoldable pub IsNarrow : Obfuscator → Type 0
IsNarrow (quic q) = length q.dcid ≤ 20
IsNarrow base64 = Unit {0}

pub wrap-IsNarrow :
    (rnd : ℕ) (o : Obfuscator) (datagram : List ℕ) → IsNarrow o → IsNarrow (wrap rnd o datagram).1
unfolding wrap IsNarrow quic_wrap
wrap-IsNarrow rnd (quic q) datagram h = h
wrap-IsNarrow rnd base64 datagram h = h

pub wrap-IsPeer :
    (rnd : ℕ) (o p : Obfuscator) (datagram : List ℕ) → IsPeer o p → IsPeer (wrap rnd o datagram).1 p
unfolding wrap quic_wrap
wrap-IsPeer rnd (quic q) (quic p) datagram h = h
wrap-IsPeer rnd (quic q) base64 datagram h = h
wrap-IsPeer rnd base64 (quic p) datagram h = h
wrap-IsPeer rnd base64 base64 datagram h = h

-- A datagram of 48000 bytes still fits UDP.
pub wrap_fits :
    (rnd : ℕ) (o : Obfuscator) (datagram : List ℕ)
    → IsNarrow o
    → All IsByte datagram
    → length datagram ≤ 48000
    → length (wrap rnd o datagram).0 ≤ 65507
unfolding wrap IsNarrow quic_wrap
wrap_fits rnd (quic q) datagram h bytes short = omega (arith, length-quic_wrap rnd q datagram)
wrap_fits rnd base64 datagram h bytes short =
    omega (arith, (base64_encode_printable datagram bytes).1)
