-- ===== src/Engine/Started.antt =====
-- engine.rs: a session from `start` in chinadns mode to the lookup of a client's first query.
use shadowvpn_ios.Prelude.{
  ℕ, ◌≤◌, ◌≡◌, refl, sym, Bool, true, false, some, List, [], ◌∷◌, ◌++◌, length,
}
use shadowvpn_ios.Prelude.Outcome.{ret}
use shadowvpn_ios.Prelude.Result.{ok}
use shadowvpn_ios.Crypto.{Primitives, PrimitiveLaws}
use shadowvpn_ios.Obfs.{QuicObfs}
use shadowvpn_ios.Obfs.Shaped.{IsNarrow}
use shadowvpn_ios.Config.{RuntimeConfig, ObfsKind, plain, quic, base64, is_chinadns}
use shadowvpn_ios.Files.{Os, Disk}
use shadowvpn_ios.Dns.Message.{Message, IsMessage, message_wire, addresses}
use shadowvpn_ios.Intercept.{Setup, Random}
use shadowvpn_ios.Intercept.Branches.{wire}
use shadowvpn_ios.Intercept.Resolved.{Asking, IsAsking, query_bytes, query_packet, clean_packet}
use shadowvpn_ios.Intercept.Build.{Sockets, new_interceptor, built_of}
use shadowvpn_ios.Intercept.Build.Loaded.{new_interceptor-IsBuilt}
use shadowvpn_ios.Engine.{Plane, add64, ingress_round, egress_round}
use shadowvpn_ios.Engine.Session.{
  Process, Session, left_over, pos, start, ingest, recv, link_of, obfuscator_of, initial_shared,
}
use shadowvpn_ios.Engine.Tunnel.{Matches}
use shadowvpn_ios.Engine.Stream.{IsRandom, IsCarrier}
use shadowvpn_ios.Engine.Lookup.{client_end, server_end, settled, answered, query_crosses}

-- The session of a setup, with these packets in its channel.
abbrev pub queued : Setup → List (List ℕ) → Session
queued setup packets = record { link = client_end setup; queue = packets; receiving = true }

obfuscator_of-IsCarrier :
    (kind : ObfsKind) (fresh : QuicObfs)
    → length fresh.dcid ≤ 20
    → IsCarrier (obfuscator_of kind fresh)
unfolding obfuscator_of IsCarrier IsNarrow
obfuscator_of-IsCarrier plain fresh h = tt
obfuscator_of-IsCarrier quic fresh h = h
obfuscator_of-IsCarrier base64 fresh h = tt

module _ (p : Primitives) (os : Os) (disk : Disk) (sockets : Sockets) (cfg : RuntimeConfig)
    (setup : Setup) (dns_local : ℕ × ℕ)
    (made : new_interceptor p os disk sockets cfg ≡ ok (setup, dns_local))
    (mode : is_chinadns cfg.mode ≡ true) where
  -- The tasks share what the interceptor was built with.
  link-client_end :
      link_of p cfg (built_of (new_interceptor p os disk sockets cfg)) ≡ client_end setup
  unfolding link_of built_of
  link-client_end =
      let (_, _, _, _, _, _, _, prims, cipher, key) =
        new_interceptor-IsBuilt p os disk sockets cfg setup dns_local made in
      rw (made, mode, sym prims, sym cipher, sym key) refl

  -- In chinadns mode, where the socket connects and the interceptor can be built, on a process that is
  -- not running: `start` succeeds, a client's query that comes in next is accepted with the code 0 and is
  -- the packet that the ingress task receives, and its round, on the state that `start` made, sends one
  -- datagram from which the server's end hands on the clean copy, and emits the domestic answer
  -- exactly where the setup takes it as domestic. The query is of allowed labels and at most 39000
  -- bytes, the answer keeps to the wire format, a QUIC id has at most 20 bytes, and the ends share
  -- cipher, key and shaping.
  pub start-query_crosses :
      (laws : PrimitiveLaws setup.primitives) (a : Asking) (v : IsAsking a)
      (short : length (query_bytes a) ≤ 39000) (rnd : Random)
      (random : IsRandom (client_end setup) rnd) (fresh : QuicObfs) (proc : Process) (up down : ℕ)
      (df : Plane) (message : Message) (rest : List ℕ) (unused : Random) (sends : Bool)
      → length fresh.dcid ≤ 20
      → Matches (obfuscator_of cfg.obfs fresh) df.shared.obfuscator
      → proc.running ≡ false
      → IsMessage message
      → let built = built_of (new_interceptor p os disk sockets cfg) in
        let answer = message_wire message ++ rest in
        let ips = addresses message.answers in
        let s = initial_shared cfg fresh in
        let dn : Plane = record { up_bytes = up; down_bytes = down; shared = s } in
        (started : Process) × (start p (ok cfg) true built proc ≡ ok started)
        × (ingest (query_packet a) started
            ≡ (record started { session = some (queued setup (query_packet a ∷ [])) }, pos 0))
        × (recv (queued setup (query_packet a ∷ [])) ≡ some (query_packet a, queued setup []))
        × ((datagram : List ℕ) × (ingress_round
                (client_end setup)
                rnd
                (some answer)
                unused
                sends
                (query_packet a)
                dn
              ≡ ret (record {
                plane = record dn { shared = settled setup rnd s a ips datagram };
                emitted = answered setup a ips answer;
                sent = wire rnd s datagram ∷ [];
                goes_on = true;
              }))
            × (egress_round (server_end setup) (wire rnd s datagram) df
                ≡ ret (record {
                  plane = record df {
                    down_bytes = add64 df.down_bytes (length (clean_packet setup a));
                  };
                  emitted = clean_packet setup a ∷ [];
                  sent = [];
                  goes_on = true;
                })))
  unfolding start ingest recv initial_shared
  start-query_crosses laws a v short rnd random fresh proc up down df message rest unused sends
        narrow peers idle valid =
      let dn : Plane = record {
        up_bytes = up;
        down_bytes = down;
        shared = initial_shared cfg fresh;
      } in
      let carrier = obfuscator_of-IsCarrier cfg.obfs fresh narrow in
      let built = built_of (new_interceptor p os disk sockets cfg) in
      (
        record proc {
          running = true;
          session = some (queued setup []);
          egress_left = left_over proc.session proc.egress_left;
          ingress_left = left_over proc.session proc.ingress_left;
        },
        rw (idle, link-client_end) refl,
        refl,
        refl,
        query_crosses setup laws a v short rnd random dn df carrier peers message rest unused sends
            valid,
      )
