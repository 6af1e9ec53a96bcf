-- ===== src/Intercept/History.antt =====
-- dns_intercept.rs: the interceptor over time. Between `begin` and `finish` of a query the egress task can
-- handle replies, and a later `try_intercept` can only start when the one before it has finished; the
-- relation allows any interleaving of the three.
pub mod Handlers
pub mod Clients
use shadowvpn_ios.Prelude.{ℕ, ◌≡◌, Bool, Option, none, List, [], ◌∷◌, ◌++◌}
use shadowvpn_ios.Prelude.Outcome.{ret}
use shadowvpn_ios.Obfs.{Obfuscator}
use shadowvpn_ios.Packet.{ParsedQuery}
use shadowvpn_ios.Intercept.{
  Setup, State, Random, Plan, forward, relay, race, classify, begin, finish,
  try_handle_tunneled_reply,
}

-- The interceptor's state, the plans that wait for a domestic answer, and, for the record, the queries that
-- were taken from clients and the packets that were emitted, the latest first.
pub record World : Type 0 where
  pub shared : State
  pub waiting : List Plan
  pub asked : List ParsedQuery
  pub emitted : List (List ℕ)

abbrev pub queries_of : Plan → List ParsedQuery
queries_of forward = []
queries_of (relay q) = q ∷ []
queries_of (race q) = q ∷ []

abbrev pub fresh : Option Obfuscator → World
fresh obfuscator = record {
  shared = record { pending = λ id. none; obfuscator = obfuscator };
  waiting = [];
  asked = [];
  emitted = [];
}

-- A packet from the app is classified and its query begun; a domestic answer, or its absence, finishes a
-- query that waits; a decrypted packet is looked at.
pub data Step (setup : Setup) (w : World) (w' : World) : Type 0 where
  takes :
      (rnd : Random) (packet : List ℕ) (plan : Plan)
      → classify packet ≡ ret plan
      → w' ≡ record w {
        shared = (begin setup rnd plan w.shared).0;
        waiting = plan ∷ w.waiting;
        asked = queries_of plan ++ w.asked;
      }
      → Step setup w w'
  answers :
      (plan : Plan) (before after : List Plan) (answer : Option (List ℕ)) (s : State)
      (out : List (List ℕ)) (consumed : Bool)
      → w.waiting ≡ before ++ plan ∷ after
      → finish setup plan answer w.shared ≡ ret (s, out, consumed)
      → w' ≡ record w { shared = s; waiting = before ++ after; emitted = out ++ w.emitted }
      → Step setup w w'
  replies :
      (plaintext : List ℕ) (s : State) (out : List (List ℕ)) (consumed : Bool)
      → try_handle_tunneled_reply setup plaintext w.shared ≡ ret (s, out, consumed)
      → w' ≡ record w { shared = s; emitted = out ++ w.emitted }
      → Step setup w w'

pub data Reachable (setup : Setup) : World → Type 0 where
  start : (obfuscator : Option Obfuscator) → Reachable setup (fresh obfuscator)
  next : {w w' : World} → Reachable setup w → Step setup w w' → Reachable setup w'
