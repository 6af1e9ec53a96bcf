-- ===== src/Engine/Reply.antt =====
-- engine.rs with dns_intercept.rs: the remote resolver's reply, from the server's end to the egress loop
-- of an end with an interceptor.
use shadowvpn_ios.Prelude.{
  ℕ, ◌+◌, ◌^◌, ◌≤◌, ◌<◌, ◌≡◌, ◌≢◌, refl, true, none, some, List, [], ◌∷◌, length, All, IsByte,
  arith,
}
use shadowvpn_ios.Prelude.Outcome.{ret}
use shadowvpn_ios.Crypto.{PrimitiveLaws}
use shadowvpn_ios.Crypto.Envelope.{decrypt-encrypt, encrypt_packet-IsByte, key_len_bounds}
use shadowvpn_ios.Packet.{build_udp_ipv4, dns_port}
use shadowvpn_ios.Packet.Octets.{build_udp_ipv4-IsByte}
use shadowvpn_ios.Inspect.Tls.{describe-Safe}
use shadowvpn_ios.Intercept.{Setup, Random, shape}
use shadowvpn_ios.Intercept.Replies.{reply_from_remote_forwarded}
use shadowvpn_ios.Engine.{Plane, add64, ingress_round, egress_round, intercept, consume}
use shadowvpn_ios.Engine.Tunnel.{Matches, tunnel_delivers}
use shadowvpn_ios.Engine.Stream.{IsRandom, IsCarrier}
use shadowvpn_ios.Engine.Stream.Carried.{shape_fits}
use shadowvpn_ios.Engine.Lookup.{client_end, server_end}

-- A reply on its way to a client.
pub record Replying : Type 0 where
  pub client_ip : ℕ
  pub client_port : ℕ
  pub payload : List ℕ

pub record IsReplying (r : Replying) : Type 0 where
  pub client_ip_ok : r.client_ip < 2 ^ 32
  pub client_port_ok : r.client_port < 2 ^ 16
  pub other_port : r.client_port ≢ dns_port
  pub len_ok : length r.payload ≤ 39000
  pub bytes : All IsByte r.payload

abbrev pub reply_packet : Setup → Replying → List ℕ
reply_packet setup r =
    build_udp_ipv4 setup.dns_remote_ip dns_port r.client_ip r.client_port r.payload

length-reply_packet :
    (setup : Setup) (r : Replying) → length (reply_packet setup r) ≡ 28 + length r.payload
length-reply_packet setup r = unfold build_udp_ipv4 in omega arith

-- A reply of the remote resolver, from port 53 to a client port other than 53, crosses the tunnel as any
-- packet does: the server's end sends one datagram, and the client's end, although it has an
-- interceptor, hands Swift the packet as it is, from the remote resolver's address, counts its bytes,
-- and leaves every pending query pending. Addresses and ports are in range, the payload has at most
-- 39000 bytes, and the ends share cipher, key and shaping.
pub reply_crosses :
    (setup : Setup) (laws : PrimitiveLaws setup.primitives) (r : Replying) (unused rnd : Random)
    (ds dc : Plane)
    → IsReplying r
    → setup.dns_remote_ip < 2 ^ 32
    → IsRandom (server_end setup) rnd
    → IsCarrier ds.shared.obfuscator
    → Matches ds.shared.obfuscator dc.shared.obfuscator
    → (datagram : List ℕ) × (ingress_round
          (server_end setup)
          unused
          none
          rnd
          true
          (reply_packet setup r)
          ds
        ≡ ret (record {
          plane = record {
            up_bytes = add64 ds.up_bytes (length (reply_packet setup r));
            down_bytes = ds.down_bytes;
            shared = record ds.shared {
              obfuscator = (shape rnd.byte ds.shared.obfuscator datagram).1;
            };
          };
          emitted = [];
          sent = (shape rnd.byte ds.shared.obfuscator datagram).0 ∷ [];
          goes_on = true;
        }))
      × (egress_round (client_end setup) (shape rnd.byte ds.shared.obfuscator datagram).0 dc
          ≡ ret (record {
            plane = record dc { down_bytes = add64 dc.down_bytes (length (reply_packet setup r)) };
            emitted = reply_packet setup r ∷ [];
            sent = [];
            goes_on = true;
          }))
unfolding IsRandom
reply_crosses setup laws r unused rnd ds dc v remote random c m =
    let (salt, bytes, byte) = random in
    let pkt = reply_packet setup r in
    let size = length-reply_packet setup r in
    let (datagram, sealed, len, _, _) =
      decrypt-encrypt setup.primitives laws setup.cipher rnd.salt setup.master_key pkt salt
        (omega (arith, size, v.len_ok)) in
    let plain : All IsByte pkt =
      build_udp_ipv4-IsByte setup.dns_remote_ip dns_port r.client_ip r.client_port r.payload
        v.bytes in
    let fits =
      shape_fits rnd.byte ds.shared.obfuscator datagram c
        (encrypt_packet-IsByte setup.primitives laws setup.cipher rnd.salt setup.master_key pkt
          datagram bytes plain sealed)
        (omega (arith, len, size, v.len_ok, key_len_bounds setup.cipher)) in
    let delivers =
      tunnel_delivers (server_end setup) laws (some setup) rnd pkt datagram ds dc salt bytes byte
        plain (omega (arith, size, v.len_ok)) sealed m fits unused none (omega (arith, size))
        (describe-Safe pkt (unfold build_udp_ipv4 in omega arith)) (unfold intercept in refl)
        (unfold consume in
          reply_from_remote_forwarded setup r.client_ip r.client_port r.payload dc.shared remote
            v.client_ip_ok v.client_port_ok v.other_port) in
    (datagram, delivers.0, delivers.1)
