-- ===== src/Obfs/Quic.antt =====
-- obfs.rs: the QUIC-like framing.
use shadowvpn_ios.Prelude.{
  ℕ, ◌+◌, ◌*◌, ◌/◌, ◌%◌, ◌^◌, ◌<◌, ◌≡◌, some, List, ◌∷◌, ◌++◌, length, drop, arith, length-append,
  length-drop, drop-append, append_assoc, bit_and_80, bit_and_40, bit_and_03, short_header_byte,
  IsByte,
}
use shadowvpn_ios.Obfs.{QuicObfs, pn_bytes, first_byte, quic_wrap, quic_unwrap, header_len}

-- The cached length of the connection id is its length, and the counter is a `u32`.
pub record IsValid (q : QuicObfs) : Type 0 where
  pub cached : q.dcid_len ≡ length q.dcid
  pub counter : q.pn < 2 ^ 32

first_byte_lem : (r : ℕ) → IsByte r → first_byte r ≡ 65 + r / 4 % 16 * 4
unfolding first_byte
first_byte_lem r h = short_header_byte r h

-- A packet is accepted when its first byte is 0b01xxxxxx and it holds the connection id and
-- the packet number that the first byte announces; the result is what follows them.
quic_unwrap_accepts :
    (q : QuicObfs) (first : ℕ) (prefix payload : List ℕ)
    → first / 64 ≡ 1
    → length prefix ≡ q.dcid_len + first % 4 + 1
    → quic_unwrap q (first ∷ (prefix ++ payload)) ≡ some payload
unfolding quic_unwrap
quic_unwrap_accepts q first prefix payload h l = ground (
  arith,
  bit_and_80 first (omega arith),
  bit_and_40 first (omega arith),
  bit_and_03 first (omega arith),
  length-append prefix payload,
  drop-append (1 + q.dcid_len + (first % 4 + 1)) (first ∷ prefix) payload,
)

hdr_lem : (d p : ℕ) → 1 + d + (p + 1) ≡ d + p + 2
hdr_lem d p = omega arith

-- A packet that is accepted starts with the bits 01 and holds the whole prefix that its first byte
-- announces; the result is what follows the prefix.
pub quic_unwrap_sound :
    (q : QuicObfs) (first : ℕ) (rest payload : List ℕ)
    → IsByte first
    → quic_unwrap q (first ∷ rest) ≡ some payload
    → (first / 64 ≡ 1)
      × (length rest ≡ q.dcid_len + first % 4 + 1 + length payload)
      × (payload ≡ drop (q.dcid_len + first % 4 + 2) (first ∷ rest))
unfolding quic_unwrap
quic_unwrap_sound q first rest payload b h = ground (
  arith,
  bit_and_80 first b,
  bit_and_40 first b,
  bit_and_03 first b,
  length-drop (q.dcid_len + first % 4 + 2) (first ∷ rest),
  hdr_lem q.dcid_len (first % 4),
)

-- A wrapped datagram unwraps to itself, for any receiver that agrees on the length of the connection
-- id only: its own connection id and counter do not matter.
pub quic_unwrap-wrap :
    (rnd : ℕ) (q peer : QuicObfs) (datagram : List ℕ)
    → IsByte rnd
    → peer.dcid_len ≡ length q.dcid
    → quic_unwrap peer (quic_wrap rnd q datagram).0 ≡ some datagram
unfolding quic_wrap
quic_unwrap-wrap rnd q peer datagram h e =
    let f = first_byte_lem rnd h in
    rw (← append_assoc q.dcid (pn_bytes q.pn) datagram) (
      quic_unwrap_accepts peer (first_byte rnd) (q.dcid ++ pn_bytes q.pn) datagram
        (omega (arith, f)) (omega (arith, f, length-append q.dcid (pn_bytes q.pn))))

pub length-quic_wrap :
    (rnd : ℕ) (q : QuicObfs) (datagram : List ℕ)
    → length (quic_wrap rnd q datagram).0 ≡ 3 + length q.dcid + length datagram
unfolding quic_wrap
length-quic_wrap rnd q datagram = omega (arith, length-append q.dcid (pn_bytes q.pn ++ datagram))

-- The prefix has the length that `header_len` announces, and the counter stays a `u32` that goes up
-- by one modulo 2 ^ 32.
quic_wrap-IsValid :
    (rnd : ℕ) (q : QuicObfs) (datagram : List ℕ)
    → IsValid q
    → (length (quic_wrap rnd q datagram).0 ≡ header_len q + length datagram)
      × IsValid (quic_wrap rnd q datagram).1
      × ((quic_wrap rnd q datagram).1.pn ≡ (q.pn + 1) % 2 ^ 32)
      × ((quic_wrap rnd q datagram).1.dcid ≡ q.dcid)
unfolding quic_wrap header_len
quic_wrap-IsValid rnd q datagram v =
    ground (arith, length-append q.dcid (pn_bytes q.pn ++ datagram))
