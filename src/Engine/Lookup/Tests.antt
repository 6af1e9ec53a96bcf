-- ===== src/Engine/Lookup/Tests.antt =====
-- The properties at a concrete lookup, over the toy primitives and the base64 framing.
use shadowvpn_ios.Prelude.{
  ℕ, ◌≡◌, refl, true, false, Option, none, some, List, [], ◌∷◌, ◌++◌, length, replicate, arith,
}
use shadowvpn_ios.Prelude.Outcome.{ret}
use shadowvpn_ios.Text.{codes, split}
use shadowvpn_ios.Crypto.{aes128_gcm}
use shadowvpn_ios.Crypto.Toy.{toy, toy_laws}
use shadowvpn_ios.Chnroute.Samples.{home}
use shadowvpn_ios.Obfs.{base64}
use shadowvpn_ios.Obfs.Shaped.{IsNarrow}
use shadowvpn_ios.Dns.{build_query}
use shadowvpn_ios.Dns.Message.{message_wire, addresses}
use shadowvpn_ios.Dns.Message.Samples.{reply, reply-IsMessage, labels-IsLabel}
use shadowvpn_ios.Intercept.{Setup, Random, shape}
use shadowvpn_ios.Intercept.Branches.{wire}
use shadowvpn_ios.Intercept.Resolved.{Asking, IsAsking, query_packet, clean_packet}
use shadowvpn_ios.Engine.{Plane, add64, ingress_round, egress_round}
use shadowvpn_ios.Engine.Stream.{IsRandom, IsCarrier}
use shadowvpn_ios.Engine.Lookup.{client_end, server_end, settled, answered, query_crosses}
use shadowvpn_ios.Prelude.Result.{ok}
use shadowvpn_ios.Country.Cache.Samples.{willing}
use shadowvpn_ios.Intercept.Build.{new_interceptor, built_of}
use shadowvpn_ios.Intercept.Build.Samples.{after, cfg, sockets, setup as loaded_setup, built}
use shadowvpn_ios.Obfs.{QuicObfs}
use shadowvpn_ios.Engine.Session.{
  Process, pos, start, ingest, recv, obfuscator_of, initial_shared, initial,
}
use shadowvpn_ios.Engine.Started.{queued, start-query_crosses}
use shadowvpn_ios.Engine.Reply.{Replying, IsReplying, reply_packet, reply_crosses}

abbrev setup : Setup
setup = record {
  primitives = toy;
  chnroute = home;
  dns_remote_ip = 0x08080808;
  dns_remote_port = 53;
  cipher = aes128_gcm;
  master_key = replicate 16 1;
}

abbrev rnd : Random
rnd = record { salt = replicate 16 9; byte = 5 }

rnd-IsRandom :
    (interceptor : Option Setup)
    → IsRandom (record (client_end setup) { interceptor = interceptor }) rnd
unfolding IsRandom
rnd-IsRandom interceptor = (refl, omega arith, omega arith)

abbrev fresh : Plane
fresh = record {
  up_bytes = 0;
  down_bytes = 100;
  shared = record { pending = λ id. none; obfuscator = some base64 };
}

abbrev asking : Asking
asking = record {
  client_ip = 0x0A000002;
  client_port = 5353;
  server_ip = 0x0A000001;
  id = 0x1234;
  label = codes "A";
  labels = codes "b" ∷ [];
}

asking-IsAsking : IsAsking asking
asking-IsAsking = record {
  client_ip_ok = omega arith;
  client_port_ok = omega arith;
  server_ip_ok = omega arith;
  id_ok = omega arith;
  labels_ok = labels-IsLabel;
  len_ok = unfold build_query split in omega arith;
}

query_crosses_example :
    (datagram : List ℕ) × (ingress_round
        (client_end setup)
        rnd
        (some (message_wire reply ++ (0 ∷ [])))
        rnd
        true
        (query_packet asking)
        fresh
      ≡ ret (record {
        plane = record fresh {
          shared = settled setup rnd fresh.shared asking (0x01020304 ∷ []) datagram;
        };
        emitted = answered setup asking (0x01020304 ∷ []) (message_wire reply ++ (0 ∷ []));
        sent = wire rnd fresh.shared datagram ∷ [];
        goes_on = true;
      }))
    × (egress_round (server_end setup) (wire rnd fresh.shared datagram) fresh
        ≡ ret (record {
          plane = record fresh { down_bytes = add64 100 (length (clean_packet setup asking)) };
          emitted = clean_packet setup asking ∷ [];
          sent = [];
          goes_on = true;
        }))
unfolding addresses IsCarrier IsNarrow
query_crosses_example =
    query_crosses setup toy_laws asking asking-IsAsking (unfold build_query split in omega arith)
      rnd (rnd-IsRandom (some setup)) fresh fresh tt tt reply (0 ∷ []) rnd true reply-IsMessage

abbrev replying : Replying
replying = record { client_ip = 0x0A000002; client_port = 5353; payload = replicate 12 7 }

replying-IsReplying : IsReplying replying
replying-IsReplying = record {
  client_ip_ok = omega arith;
  client_port_ok = omega arith;
  other_port = omega arith;
  len_ok = omega arith;
  bytes = omega arith;
}

reply_crosses_example :
    (datagram : List ℕ) × (ingress_round
        (server_end setup)
        rnd
        none
        rnd
        true
        (reply_packet setup replying)
        fresh
      ≡ ret (record {
        plane = record {
          up_bytes = add64 0 (length (reply_packet setup replying));
          down_bytes = 100;
          shared = record fresh.shared {
            obfuscator = (shape 5 fresh.shared.obfuscator datagram).1;
          };
        };
        emitted = [];
        sent = (shape 5 fresh.shared.obfuscator datagram).0 ∷ [];
        goes_on = true;
      }))
    × (egress_round (client_end setup) (shape 5 fresh.shared.obfuscator datagram).0 fresh
        ≡ ret (record {
          plane = record fresh { down_bytes = add64 100 (length (reply_packet setup replying)) };
          emitted = reply_packet setup replying ∷ [];
          sent = [];
          goes_on = true;
        }))
unfolding IsCarrier IsNarrow
reply_crosses_example =
    reply_crosses setup toy_laws replying rnd rnd fresh fresh replying-IsReplying (omega arith)
      (rnd-IsRandom none) tt tt

abbrev unshaped : Plane
unshaped = record {
  up_bytes = 0;
  down_bytes = 100;
  shared = record { pending = λ id. none; obfuscator = none };
}

abbrev unused_quic : QuicObfs
unused_quic = record { dcid = replicate 8 0; dcid_len = 8; pn = 0 }

abbrev first_plane : Plane
first_plane = record { up_bytes = 0; down_bytes = 0; shared = initial_shared cfg unused_quic }

loaded-IsRandom : IsRandom (client_end loaded_setup) rnd
unfolding IsRandom
loaded-IsRandom = (refl, omega arith, omega arith)

start-query_crosses_example :
    (started : Process) × (start toy
        (ok cfg)
        true
        (built_of (new_interceptor toy willing after sockets cfg))
        initial
      ≡ ok started)
    × (ingest (query_packet asking) started ≡ (
      record started { session = some (queued loaded_setup (query_packet asking ∷ [])) },
      pos 0,
    ))
    × (recv (queued loaded_setup (query_packet asking ∷ []))
        ≡ some (query_packet asking, queued loaded_setup []))
    × ((datagram : List ℕ) × (ingress_round
            (client_end loaded_setup)
            rnd
            (some (message_wire reply ++ []))
            rnd
            false
            (query_packet asking)
            first_plane
          ≡ ret (record {
            plane = record first_plane {
              shared =
                  settled loaded_setup rnd first_plane.shared asking (0x01020304 ∷ []) datagram;
            };
            emitted = answered loaded_setup asking (0x01020304 ∷ []) (message_wire reply ++ []);
            sent = wire rnd first_plane.shared datagram ∷ [];
            goes_on = true;
          }))
        × (egress_round (server_end loaded_setup) (wire rnd first_plane.shared datagram) unshaped
            ≡ ret (record {
              plane = record unshaped {
                down_bytes = add64 100 (length (clean_packet loaded_setup asking));
              };
              emitted = clean_packet loaded_setup asking ∷ [];
              sent = [];
              goes_on = true;
            })))
unfolding addresses obfuscator_of
start-query_crosses_example =
    start-query_crosses toy willing after sockets cfg loaded_setup (0xDF050505, 53) built refl
      toy_laws asking asking-IsAsking (unfold build_query split in omega arith) rnd loaded-IsRandom
      unused_quic initial 0 0 unshaped reply [] rnd false (omega arith) tt refl reply-IsMessage
