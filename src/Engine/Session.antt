-- ===== src/Engine/Session.antt =====
-- core/rust/shadowvpn-ios-ffi/src/engine.rs: starting, stopping and feeding the session. `abort` only
-- asks a task to leave, so an aborted task that nobody has joined is counted as one that may still run.
pub mod Lifecycle
pub mod Contract
pub mod Progress
use shadowvpn_ios.Prelude.{
  ℕ, zero, suc, ◌+◌, ◌-◌, Bool, true, false, Option, none, some, List, [], ◌∷◌, ◌++◌, length, ltb,
  if◌then◌else◌,
}
use shadowvpn_ios.Prelude.Result.{Result, ok, err}
use shadowvpn_ios.Obfs.{QuicObfs, Obfuscator}
use shadowvpn_ios.Crypto.{Primitives}
use shadowvpn_ios.Config.{
  Mode, full, chnroute, chinadns, ObfsKind, plain, quic, base64, RuntimeConfig, ConfigError,
  is_chinadns,
}
use shadowvpn_ios.Intercept.{Setup, State}
use shadowvpn_ios.Engine.{Link, ingest_queue_depth}

-- The codes that the C interface returns.
pub data ℤ : Type 0 where
  pos : ℕ → ℤ
  negsuc : ℕ → ℤ

-- `queue` is the ingest channel, oldest packet first; `receiving` is whether the ingress task still holds
-- the receiver.
pub record Session : Type 0 where
  pub link : Link
  pub queue : List (List ℕ)
  pub receiving : Bool

-- `RUNNING`, the session slot, and the tasks of earlier sessions that have been aborted and may still
-- be in their last poll.
pub record Process : Type 0 where
  pub running : Bool
  pub session : Option Session
  pub egress_left : ℕ
  pub ingress_left : ℕ

pub data StartError : Type 0 where
  already_running : StartError
  config : ConfigError → StartError
  socket : StartError

-- What `start` makes of the configured obfuscation; `fresh` is what `QuicObfs::new` returns.
unfoldable pub obfuscator_of : ObfsKind → QuicObfs → Option Obfuscator
obfuscator_of plain fresh = none
obfuscator_of quic fresh = some (Obfuscator.quic fresh)
obfuscator_of base64 fresh = some Obfuscator.base64

-- The interceptor: only in chinadns mode, and `none` where `DnsInterceptor::new` fails.
pub interceptor_of : Mode → Option Setup → Option Setup
interceptor_of mode built = if is_chinadns mode then built else none

-- What the tasks share at the start.
unfoldable pub initial_shared : RuntimeConfig → QuicObfs → State
unfolding obfuscator_of
initial_shared cfg fresh = record {
  pending = λ id. none;
  obfuscator = obfuscator_of cfg.obfs fresh;
}

unfoldable pub link_of : Primitives → RuntimeConfig → Option Setup → Link
unfolding interceptor_of
link_of p cfg built = record {
  primitives = p;
  cipher = cfg.cipher;
  master_key = cfg.master_key;
  interceptor = interceptor_of cfg.mode built;
}

-- The tasks that may still run where a session's slot is written over: its handles are dropped, and no
-- task ends by that.
pub left_over : Option Session → ℕ → ℕ
left_over none n = n
left_over (some s) n = suc n

-- `start`, for the result of `from_json`, of the bind and connect, and of `DnsInterceptor::new`.
unfoldable pub start :
    Primitives
    → Result ConfigError RuntimeConfig
    → Bool
    → Option Setup
    → Process
    → Result StartError Process
unfolding left_over
start p parsed connects built proc = if proc.running then err already_running else elim parsed [
  | err e ↦ err (config e)
  | ok cfg ↦
      if connects
      then ok (record proc {
        running = true;
        session = some (record { link = link_of p cfg built; queue = []; receiving = true });
        egress_left = left_over proc.session proc.egress_left;
        ingress_left = left_over proc.session proc.ingress_left;
      })
      else err socket
]

-- `stop`: the three tasks are aborted and not joined.
unfoldable pub stop : Process → Process
stop proc = elim proc.session [
  | none ↦ record proc { running = false }
  | some s ↦ record proc {
    running = false;
    session = none;
    egress_left = suc proc.egress_left;
    ingress_left = suc proc.ingress_left;
  }
]

-- `stop_blocking`: the egress task is joined, unless the join times out.
unfoldable pub stop_blocking : Bool → Process → Process
stop_blocking joins proc = elim proc.session [
  | none ↦ record proc { running = false }
  | some s ↦ record proc {
    running = false;
    session = none;
    egress_left = if joins then proc.egress_left else suc proc.egress_left;
    ingress_left = suc proc.ingress_left;
  }
]

unfoldable pub is_running : Process → Bool
is_running proc = proc.running

-- `try_send`: closed, full, or room for one more.
pub try_send : List ℕ → Session → Session × ℤ
try_send packet s =
    if s.receiving
    then (if ltb (length s.queue) ingest_queue_depth
        then (record s { queue = s.queue ++ (packet ∷ []) }, pos 0)
        else (s, pos 0))
    else (s, negsuc 0)

-- `ingest`
unfoldable pub ingest : List ℕ → Process → Process × ℤ
unfolding try_send
ingest packet proc = elim proc.session [
  | none ↦ (proc, negsuc 0)
  | some s ↦ let (s', code) = try_send packet s in (record proc { session = some s' }, code)
]

-- `rx.recv()` in the ingress task: the oldest packet.
unfoldable pub recv : Session → Option (List ℕ × Session)
recv s = elim s.queue [ [] ↦ none | packet ∷ queue ↦ some (packet, record s { queue = queue }) ]

-- The ingress task ends: a failed `send` drops the receiver.
pub close : Session → Session
close s = record s { receiving = false; queue = [] }

-- What can happen to the process, the tasks' own steps included.
pub data Event : Type 0 where
  starts : Primitives → Result ConfigError RuntimeConfig → Bool → Option Setup → Event
  stops : Event
  stops_blocking : Bool → Event
  ingests : List ℕ → Event
  receives : Event
  send_fails : Event
  egress_leaves : Event
  ingress_leaves : Event

-- A session's own step.
pub in_session : (Session → Session) → Process → Process
in_session f proc = elim proc.session [
  | none ↦ proc
  | some s ↦ record proc { session = some (f s) }
]

pub after_recv : Session → Session
unfolding recv
after_recv s = elim (recv s) [ none ↦ s | some (packet, s') ↦ s' ]

-- A rejected start leaves the process as it is.
unfoldable pub step : Event → Process → Process
unfolding in_session after_recv close
step (starts p parsed connects built) proc = elim (start p parsed connects built proc) [
  | err e ↦ proc
  | ok proc' ↦ proc'
]
step stops proc = stop proc
step (stops_blocking joins) proc = stop_blocking joins proc
step (ingests packet) proc = (ingest packet proc).0
step receives proc = in_session after_recv proc
step send_fails proc = in_session close proc
step egress_leaves proc = record proc { egress_left = proc.egress_left - 1 }
step ingress_leaves proc = record proc { ingress_left = proc.ingress_left - 1 }

abbrev pub initial : Process
initial = record { running = false; session = none; egress_left = 0; ingress_left = 0 }

-- The process after a history of events, oldest first.
abbrev pub run : List Event → Process → Process
run [] proc = proc
run (e ∷ es) proc = run es (step e proc)
