-- ===== src/Obfs/Tests.antt =====
-- The properties at concrete datagrams.
use shadowvpn_ios.Prelude.{ℕ, ◌+◌, ◌/◌, ◌≡◌, refl, some, List, [], ◌∷◌, length, drop, arith, ◌%◌}
use shadowvpn_ios.Obfs.{QuicObfs, quic, quic_wrap, quic_unwrap, wrap, unwrap}
use shadowvpn_ios.Obfs.Quic.{quic_unwrap-wrap, quic_unwrap_sound}
use shadowvpn_ios.Obfs.Wire.{unwrap-wrap}

abbrev client : QuicObfs
client = record { dcid = 1 ∷ 2 ∷ 3 ∷ 4 ∷ 5 ∷ 6 ∷ 7 ∷ 8 ∷ []; dcid_len = 8; pn = 0xFFFFFFFF }

abbrev server : QuicObfs
server = record { dcid = 9 ∷ 9 ∷ 9 ∷ 9 ∷ 9 ∷ 9 ∷ 9 ∷ 9 ∷ []; dcid_len = 8; pn = 7 }

abbrev datagram : List ℕ
datagram = 0xDE ∷ 0xAD ∷ 0xBE ∷ 0xEF ∷ []

quic_unwrap-wrap_example : quic_unwrap server (quic_wrap 0xA7 client datagram).0 ≡ some datagram
quic_unwrap-wrap_example = quic_unwrap-wrap 0xA7 client server datagram (omega arith) refl

abbrev behind : List ℕ
behind = 1 ∷ 2 ∷ 3 ∷ 4 ∷ 5 ∷ 6 ∷ 7 ∷ 8 ∷ 0 ∷ 0 ∷ 42 ∷ []

abbrev answer : List ℕ
answer = 42 ∷ []

quic_unwrap_sound_example :
    (0x41 / 64 ≡ 1)
    × (length behind ≡ 8 + 0x41 % 4 + 1 + length answer)
    × (answer ≡ drop (8 + 0x41 % 4 + 2) (0x41 ∷ behind))
quic_unwrap_sound_example =
    quic_unwrap_sound server 0x41 behind answer (omega arith) (unfold quic_unwrap in refl)

unwrap-wrap_example : unwrap (quic server) (wrap 3 (quic client) datagram).0 ≡ some datagram
unwrap-wrap_example =
    unwrap-wrap 3 (quic client) (quic server) datagram (omega arith) (omega arith) refl
