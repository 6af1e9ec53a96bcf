-- ===== src/Engine/Tests.antt =====
-- The properties at a concrete session, over the toy primitives.
use shadowvpn_ios.Prelude.{
  ℕ, ◌+◌, ◌≤◌, ◌≡◌, refl, true, none, some, List, [], ◌∷◌, length, replicate, All, arith,
}
use shadowvpn_ios.Prelude.Outcome.{ret, panic}
use shadowvpn_ios.Prelude.Result.{ok}
use shadowvpn_ios.Text.{codes}
use shadowvpn_ios.Crypto.{aes128_gcm, encrypt_packet}
use shadowvpn_ios.Crypto.Envelope.{decrypt-encrypt}
use shadowvpn_ios.Crypto.Toy.{toy, toy_laws}
use shadowvpn_ios.Config.{full, plain, RuntimeConfig}
use shadowvpn_ios.Intercept.{Random, shape}
use shadowvpn_ios.Engine.{
  Link, Plane, keepalive_payload, ingress_round, egress_round, intercept, consume,
}
use shadowvpn_ios.Engine.Session.{
  stop_blocking, starts, stops, ingests, initial, run, step, start, stop, ingest,
}
use shadowvpn_ios.Engine.Session.{Event, receives}
use shadowvpn_ios.Engine.Session.Progress.{holding, next_packet, ingested-next}
use shadowvpn_ios.Engine.Session.Lifecycle.{IsValid, run-IsValid, callers, stop_blocking_quiet}
use shadowvpn_ios.Engine.Tunnel.{tunnel_delivers, ingress_round_panics}
use shadowvpn_ios.Engine.Stream.{
  Turn, forwards, ticks, send_all, receive_all, packets_of, IsRandom, IsTurn, IsCarrier, pick,
  concat, total,
}
use shadowvpn_ios.Engine.Stream.Carried.{plain as plain_link}
use shadowvpn_ios.Engine.Stream.Delivered.{received, stream_delivers}
use shadowvpn_ios.Inspect.Tls.{describe-Safe}
use shadowvpn_ios.Inspect.Http.{bad_packet}

abbrev link : Link
link = record {
  primitives = toy;
  cipher = aes128_gcm;
  master_key = replicate 16 1;
  interceptor = none;
}

abbrev rnd : Random
rnd = record { salt = replicate 16 9; byte = 5 }

abbrev fresh : Plane
fresh = record {
  up_bytes = 0;
  down_bytes = 100;
  shared = record { pending = λ id. none; obfuscator = none };
}

abbrev packet : List ℕ
packet = 0x45 ∷ replicate 19 7

sealing :
    (pkt : List ℕ)
    → length pkt ≤ 65535
    → (datagram : List ℕ) × (encrypt_packet toy aes128_gcm (replicate 16 9) (replicate 16 1) pkt
        ≡ ok datagram)
      × (length datagram ≡ 16 + length pkt + 16)
sealing pkt h =
    let (d, e, l, _, _) =
      decrypt-encrypt toy toy_laws aes128_gcm (replicate 16 9) (replicate 16 1) pkt refl h in
    (d, e, l)

-- The packet, sealed.
abbrev datagram : List ℕ
datagram = (sealing packet (omega arith)).0

fits : length (shape 5 none datagram).0 ≤ 65507
unfolding shape
fits = omega (arith, (sealing packet (omega arith)).2)

tunnel_delivers_example :
    (ingress_round link rnd none rnd true packet fresh
      ≡ ret (record {
        plane = record fresh { up_bytes = 20; shared = record fresh.shared { obfuscator = none } };
        emitted = [];
        sent = datagram ∷ [];
        goes_on = true;
      }))
    × (egress_round link datagram fresh
        ≡ ret (record {
          plane = record fresh { down_bytes = 120 };
          emitted = packet ∷ [];
          sent = [];
          goes_on = true;
        }))
unfolding shape intercept consume
tunnel_delivers_example =
    tunnel_delivers link toy_laws none rnd packet datagram fresh fresh refl (omega arith)
      (omega arith) (omega arith) (omega arith) (sealing packet (omega arith)).1 tt fits rnd none
      (omega arith) (describe-Safe packet (omega arith)) refl refl

abbrev keepalive : List ℕ
keepalive = (sealing keepalive_payload (omega arith)).0

keepalive_fits : length (shape 5 none keepalive).0 ≤ 65507
unfolding shape
keepalive_fits = omega (arith, (sealing keepalive_payload (omega arith)).2)

abbrev config : RuntimeConfig
config = record {
  server = codes "192.0.2.1:8388";
  cipher = aes128_gcm;
  master_key = replicate 16 1;
  mode = full;
  mtu = 1400;
  dns_local = none;
  dns_remote = none;
  chnroute_path = none;
  obfs = plain;
}

run-IsValid_example :
    IsValid (
      run (starts toy (ok config) true none ∷ ingests packet ∷ stops ∷ ingests packet ∷ []) initial)
run-IsValid_example =
    run-IsValid (starts toy (ok config) true none ∷ ingests packet ∷ stops ∷ ingests packet ∷ [])

stop_blocking_quiet_example :
    let es = stops ∷ starts toy (ok config) true none ∷ ingests packet ∷ [] in
    (callers (run es initial) ≤ 2) × (callers (stop_blocking true (run es initial)) ≤ 1)
unfolding step start stop ingest
stop_blocking_quiet_example =
    stop_blocking_quiet (stops ∷ starts toy (ok config) true none ∷ ingests packet ∷ [])

ingress_round_panics_example :
    ingress_round link rnd none rnd true (bad_packet b'a' b'b' b'c' b'd') fresh ≡ panic
ingress_round_panics_example =
    ingress_round_panics link rnd rnd none true fresh b'a' b'b' b'c' b'd' (omega arith)

abbrev history : List Event
history = starts toy (ok config) true none ∷ ingests packet ∷ receives ∷ stops ∷ ingests packet ∷ []

-- A second packet and a refused start come before the take.
ingested-next_example :
    next_packet (
      run
        (ingests packet ∷ ingests keepalive ∷ starts toy (ok config) true none ∷ receives ∷ [])
        (holding link (keepalive ∷ []) true 0 0))
    ≡ some packet
ingested-next_example =
    ingested-next packet (ingests keepalive ∷ starts toy (ok config) true none ∷ receives ∷ []) link
      (keepalive ∷ []) 0 0 (omega arith) (tt, (tt, (tt, tt))) refl

-- A packet, a keepalive and a longer packet, of which the last arrives first and the first twice.
abbrev longer : List ℕ
longer = 0x45 ∷ replicate 29 8

abbrev turns : List Turn
turns = forwards packet rnd ∷ ticks rnd ∷ forwards longer rnd ∷ []

turns-IsTurn : All (IsTurn (plain_link link)) turns
unfolding IsTurn IsRandom
turns-IsTurn = (
  (
    (refl, omega arith, omega arith),
    omega arith,
    omega arith,
    omega arith,
    describe-Safe packet (omega arith),
  ),
  (
    (refl, omega arith, omega arith),
    (
      (
        (refl, omega arith, omega arith),
        omega arith,
        omega arith,
        omega arith,
        describe-Safe longer (omega arith),
      ),
      tt,
    ),
  ),
)

stream_delivers_example :
    (wires : List (List ℕ)) × (after : Plane) × (send_all (plain_link link) turns fresh
      ≡ ret (after, wires))
    × (length wires ≡ 3)
    × (after.up_bytes ≡ 50)
    × (receive_all (plain_link link) (pick (2 ∷ 1 ∷ 0 ∷ 0 ∷ 9 ∷ []) wires) fresh
        ≡ ret (received fresh (longer ∷ packet ∷ packet ∷ []), longer ∷ packet ∷ packet ∷ []))
unfolding IsCarrier pick concat total packets_of
stream_delivers_example =
    stream_delivers link toy_laws turns (2 ∷ 1 ∷ 0 ∷ 0 ∷ 9 ∷ []) fresh fresh turns-IsTurn tt tt
      (omega arith) (omega arith)
