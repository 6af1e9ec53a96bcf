-- ===== src/Engine/Tunnel.antt =====
-- engine.rs: a packet from the ingress round of one end to the egress round of the other.
use shadowvpn_ios.Prelude.{
  Bool, ℕ, ◌≤◌, ◌<◌, ◌≡◌, refl, ◌∙◌, true, false, Option, none, some, List, [], ◌∷◌, length, take,
  take-length, All, IsByte, subst, sym, arith,
}
use shadowvpn_ios.Prelude.Outcome.{ret, ◌>>=◌, panic, discard, Safe, discard-Safe}
use shadowvpn_ios.Prelude.Result.{ok, ok_injective}
use shadowvpn_ios.Crypto.{PrimitiveLaws, salt_len, encrypt_packet, decrypt_packet}
use shadowvpn_ios.Crypto.Envelope.{decrypt-encrypt, encrypt_packet-IsByte}
use shadowvpn_ios.Protocol.{max_datagram_size, crypto_overhead}
use shadowvpn_ios.Obfs.{Obfuscator}
use shadowvpn_ios.Obfs.Wire.{IsPeer, unwrap-wrap}
use shadowvpn_ios.Inspect.{describe}
use shadowvpn_ios.Inspect.Http.{IsPlain, bad_packet, describe_panics}
use shadowvpn_ios.Intercept.{Setup, Random, shape}
use shadowvpn_ios.Engine.{
  Link, Plane, add64, skip, forward_packet, ingress_round, unshape, deliver, egress_round,
  buffer_size, intercept, consume,
}

-- The two ends shape datagrams the same way.
abbrev pub Matches : Option Obfuscator → Option Obfuscator → Type 0
Matches none none = Unit
Matches (some o) (some o') = IsPeer o o'
Matches none (some o) = ⊥
Matches (some o) none = ⊥

pub unshape-shape :
    (link : Link) (rnd : ℕ) (sender receiver : Option Obfuscator) (datagram : List ℕ)
    → IsByte rnd
    → All IsByte datagram
    → Matches sender receiver
    → unshape link receiver (shape rnd sender datagram).0 ≡ some datagram
unfolding unshape shape
unshape-shape link rnd none none datagram r h m = refl
unshape-shape link rnd (some o) (some o') datagram r h m = unwrap-wrap rnd o o' datagram r h m
unshape-shape link rnd none (some o) datagram r h m = absurd m
unshape-shape link rnd (some o) none datagram r h m = absurd m

-- `recv` cuts no UDP datagram.
pub recv_whole :
    (link : Link) (wire : List ℕ) → length wire ≤ 65507 → take (buffer_size link) wire ≡ wire
unfolding max_datagram_size crypto_overhead
recv_whole link wire h = take-length (buffer_size link) wire (omega arith)

pub egress_opened :
    (link : Link) (received datagram pkt : List ℕ) (d : Plane)
    → take (buffer_size link) received ≡ received
    → unshape link d.shared.obfuscator received ≡ some datagram
    → decrypt_packet link.primitives link.cipher link.master_key datagram ≡ ok pkt
    → egress_round link received d ≡ deliver link pkt d
unfolding egress_round
egress_opened link received datagram pkt d whole shaped opened =
    rw (whole, egress_round) (rw (shaped) (rw (opened) refl))

module _ (link : Link) (laws : PrimitiveLaws link.primitives) (far_interceptor : Option Setup) where
  -- The other end of the tunnel: the same cipher and key.
  abbrev far : Link
  far = record link { interceptor = far_interceptor }

  module _ (rnd : Random) (pkt datagram : List ℕ) (dn df : Plane)
      (hs : length rnd.salt ≡ salt_len link.cipher) (bytes : All IsByte rnd.salt)
      (byte : IsByte rnd.byte) (plain : All IsByte pkt) (hp : length pkt ≤ 65535)
      (sealed : encrypt_packet link.primitives link.cipher rnd.salt link.master_key pkt
        ≡ ok datagram)
      (peers : Matches dn.shared.obfuscator df.shared.obfuscator)
      (fits : length (shape rnd.byte dn.shared.obfuscator datagram).0 ≤ 65507) where
    abbrev wire : List ℕ
    wire = (shape rnd.byte dn.shared.obfuscator datagram).0

    opened : decrypt_packet link.primitives link.cipher link.master_key datagram ≡ ok pkt
    opened =
        let (d, e, _, _, back) =
          decrypt-encrypt link.primitives laws link.cipher rnd.salt link.master_key pkt hs hp in
        subst (λ x. decrypt_packet link.primitives link.cipher link.master_key x ≡ ok pkt)
          (ok_injective (sym e ∙ sealed)) back

    egress_opens : egress_round far wire df ≡ deliver far pkt df
    egress_opens =
        egress_opened far wire datagram pkt df (recv_whole far wire fits)
          (unshape-shape far rnd.byte dn.shared.obfuscator df.shared.obfuscator datagram byte
            (encrypt_packet-IsByte link.primitives laws link.cipher rnd.salt link.master_key pkt
              datagram bytes plain sealed)
            peers)
          opened

    -- A packet that `describe` does not panic on and that no interceptor takes crosses the tunnel: the
    -- ingress round sends one datagram and counts the packet's bytes, and the other end's egress round
    -- hands Swift exactly the packet and counts its bytes. The packet has 20 to 65535 bytes, the ends
    -- share cipher, key and shaping, the salt has the cipher's length, and the datagram fits UDP.
    pub tunnel_delivers :
        (direct : Random) (answer : Option (List ℕ))
        → 20 ≤ length pkt
        → Safe (describe pkt)
        → intercept link.interceptor direct pkt answer dn.shared ≡ ret (dn.shared, [], false, [])
        → consume far_interceptor pkt df.shared ≡ ret (df.shared, [], false)
        → (ingress_round link direct answer rnd true pkt dn
            ≡ ret (record {
              plane = record {
                up_bytes = add64 dn.up_bytes (length pkt);
                down_bytes = dn.down_bytes;
                shared = record dn.shared {
                  obfuscator = (shape rnd.byte dn.shared.obfuscator datagram).1;
                };
              };
              emitted = [];
              sent = wire ∷ [];
              goes_on = true;
            }))
          × (egress_round far wire df
              ≡ ret (record {
                plane = record df { down_bytes = add64 df.down_bytes (length pkt) };
                emitted = pkt ∷ [];
                sent = [];
                goes_on = true;
              }))
    unfolding ingress_round deliver forward_packet
    tunnel_delivers direct answer long seen near_free far_free = (
      rw (discard-Safe (describe pkt) seen, ◌>>=◌)
          (rw (near_free, ◌>>=◌) (rw (sealed, forward_packet) refl)),
      egress_opens ∙ ground (arith, far_free),
    )

    -- A packet too short for an IPv4 header, as the keepalive is, that the peer has sealed and shaped
    -- the same way goes no further than the decryption: nothing is emitted and no byte is counted.
    pub short_packet_dropped : length pkt < 20 → egress_round far wire df ≡ ret (skip df)
    unfolding deliver
    short_packet_dropped short = egress_opens ∙ ground arith

-- The packet `bad_packet`, an HTTP request to 192.0.2.1:80 whose one header line consists of any four
-- ASCII characters that are no carriage return and of the byte 0xFF, ends the process: the ingress
-- round panics where it describes the packet for the log, before anything is sent.
pub ingress_round_panics :
    (link : Link) (direct rnd : Random) (answer : Option (List ℕ)) (sends : Bool) (d : Plane)
    (a b c e : ℕ)
    → All IsPlain (a ∷ b ∷ c ∷ e ∷ [])
    → ingress_round link direct answer rnd sends (bad_packet a b c e) d ≡ panic
unfolding ingress_round
ingress_round_panics link direct rnd answer sends d a b c e h =
    rw (describe_panics a b c e h, discard, ◌>>=◌) refl
