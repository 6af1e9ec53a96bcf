-- ===== src/Engine/Stream/Carried.antt =====
-- engine.rs: one turn of the near end, and the round of the other end that reads its datagram.
use shadowvpn_ios.Prelude.{
  ℕ, ◌≤◌, ◌≡◌, refl, sym, subst, true, Option, none, some, List, [], ◌∷◌, length, All, IsByte,
  arith,
}
use shadowvpn_ios.Prelude.Outcome.{ret, Safe}
use shadowvpn_ios.Inspect.{describe}
use shadowvpn_ios.Crypto.{PrimitiveLaws}
use shadowvpn_ios.Crypto.Envelope.{decrypt-encrypt, encrypt_packet-IsByte, key_len_bounds}
use shadowvpn_ios.Obfs.{Obfuscator}
use shadowvpn_ios.Obfs.Shaped.{wrap-IsNarrow, wrap-IsPeer, wrap_fits}
use shadowvpn_ios.Intercept.{Random, shape}
use shadowvpn_ios.Engine.{
  Link, Plane, add64, intercept, consume, egress_round, keepalive_round, keepalive_payload,
}
use shadowvpn_ios.Engine.Tunnel.{Matches, tunnel_delivers, short_packet_dropped}
use shadowvpn_ios.Engine.Stream.{
  Turn, forwards, ticks, near_round, packets_of, count_all, IsRandom, IsTurn, IsCarrier,
}

shape-IsCarrier :
    (rnd : ℕ) (o : Option Obfuscator) (datagram : List ℕ)
    → IsCarrier o
    → IsCarrier (shape rnd o datagram).1
unfolding shape IsCarrier
shape-IsCarrier rnd none datagram h = h
shape-IsCarrier rnd (some o) datagram h = wrap-IsNarrow rnd o datagram h

shape-Matches :
    (rnd : ℕ) (o f : Option Obfuscator) (datagram : List ℕ)
    → Matches o f
    → Matches (shape rnd o datagram).1 f
unfolding shape
shape-Matches rnd none f datagram h = h
shape-Matches rnd (some o) none datagram h = h
shape-Matches rnd (some o) (some p) datagram h = wrap-IsPeer rnd o p datagram h

pub shape_fits :
    (rnd : ℕ) (o : Option Obfuscator) (datagram : List ℕ)
    → IsCarrier o
    → All IsByte datagram
    → length datagram ≤ 48000
    → length (shape rnd o datagram).0 ≤ 65507
unfolding shape IsCarrier
shape_fits rnd none datagram h bytes short = omega arith
shape_fits rnd (some o) datagram h bytes short = wrap_fits rnd o datagram h bytes short

abbrev pub plain : Link → Link
plain link = record link { interceptor = none }

-- What a turn of the near end and the datagram that it sends do.
pub record Crossing (link : Link) (t : Turn) (dn : Plane) (f : Option Obfuscator) : Type 0 where
  pub wire : List ℕ
  pub after : Plane
  pub round :
      near_round link t dn
      ≡ ret (record { plane = after; emitted = []; sent = wire ∷ []; goes_on = true })
  pub carrier : IsCarrier after.shared.obfuscator
  pub matches : Matches after.shared.obfuscator f
  pub counted : after.up_bytes ≡ count_all dn.up_bytes (packets_of t)
  pub arrives :
      (df : Plane)
      → df.shared.obfuscator ≡ f
      → egress_round link wire df
        ≡ ret (record {
          plane = record df { down_bytes = count_all df.down_bytes (packets_of t) };
          emitted = packets_of t;
          sent = [];
          goes_on = true;
        })

module _ (base : Link) (laws : PrimitiveLaws base.primitives) (dn : Plane) (rnd : Random)
    (f : Option Obfuscator) (random : IsRandom (plain base) rnd)
    (c : IsCarrier dn.shared.obfuscator) (m : Matches dn.shared.obfuscator f) where
  abbrev link : Link
  link = plain base

  -- The plane behind a datagram that is sent, with the counter at `n`.
  abbrev moved : List ℕ → ℕ → Plane
  moved datagram n = record dn {
    up_bytes = n;
    shared = record dn.shared { obfuscator = (shape rnd.byte dn.shared.obfuscator datagram).1 };
  }

  packet_crosses :
      (pkt : List ℕ)
      → 20 ≤ length pkt
      → length pkt ≤ 40000
      → All IsByte pkt
      → Safe (describe pkt)
      → Crossing link (forwards pkt rnd) dn f
  unfolding IsRandom near_round packets_of count_all
  packet_crosses pkt long short plain_bytes seen =
      let (hs, bytes, byte) = random in
      let (datagram, sealed, len, _, _) =
        decrypt-encrypt link.primitives laws link.cipher rnd.salt link.master_key pkt hs
          (omega arith) in
      let o = dn.shared.obfuscator in
      let wire_bytes =
        encrypt_packet-IsByte link.primitives laws link.cipher rnd.salt link.master_key pkt datagram
          bytes plain_bytes sealed in
      let fits =
        shape_fits rnd.byte o datagram c wire_bytes
          (omega (arith, len, key_len_bounds link.cipher)) in
      let delivers = λ (df : Plane) (e : df.shared.obfuscator ≡ f).
        tunnel_delivers link laws none rnd pkt datagram dn df hs bytes byte plain_bytes
          (omega arith) sealed (subst (Matches o) (sym e) m) fits rnd none long seen
          (unfold intercept in refl) (unfold consume in refl) in
      record {
        wire = (shape rnd.byte o datagram).0;
        after = moved datagram (add64 dn.up_bytes (length pkt));
        round = (delivers (record dn { shared = record dn.shared { obfuscator = f } }) refl).0;
        carrier = shape-IsCarrier rnd.byte o datagram c;
        matches = shape-Matches rnd.byte o f datagram m;
        counted = refl;
        arrives = λ df e. (delivers df e).1;
      }

  tick_crosses : Crossing link (ticks rnd) dn f
  unfolding IsRandom near_round packets_of count_all keepalive_round
  tick_crosses =
      let (hs, bytes, byte) = random in
      let (datagram, sealed, len, _, _) =
        decrypt-encrypt link.primitives laws link.cipher rnd.salt link.master_key keepalive_payload
          hs (omega arith) in
      let o = dn.shared.obfuscator in
      let wire_bytes =
        encrypt_packet-IsByte link.primitives laws link.cipher rnd.salt link.master_key
          keepalive_payload datagram bytes (omega arith) sealed in
      let fits =
        shape_fits rnd.byte o datagram c wire_bytes
          (omega (arith, len, key_len_bounds link.cipher)) in
      record {
        wire = (shape rnd.byte o datagram).0;
        after = moved datagram dn.up_bytes;
        round = rw (sealed, keepalive_round) refl;
        carrier = shape-IsCarrier rnd.byte o datagram c;
        matches = shape-Matches rnd.byte o f datagram m;
        counted = refl;
        arrives = λ df e.
            short_packet_dropped link laws none rnd keepalive_payload datagram dn df hs bytes byte
              (omega arith) (omega arith) sealed (subst (Matches o) (sym e) m) fits (omega arith);
      }

-- Every turn crosses the tunnel.
pub crossing :
    (base : Link) (laws : PrimitiveLaws base.primitives) (t : Turn) (dn : Plane)
    (f : Option Obfuscator)
    → IsTurn (plain base) t
    → IsCarrier dn.shared.obfuscator
    → Matches dn.shared.obfuscator f
    → Crossing (plain base) t dn f
unfolding IsTurn
crossing base laws (forwards pkt rnd) dn f (random, long, short, plain_bytes, seen) c m =
    packet_crosses base laws dn rnd f random c m pkt long short plain_bytes seen
crossing base laws (ticks rnd) dn f random c m = tick_crosses base laws dn rnd f random c m
