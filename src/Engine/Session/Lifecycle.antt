-- ===== src/Engine/Session/Lifecycle.antt =====
-- engine.rs: the session across histories of starts, stops, packets and task steps.
use shadowvpn_ios.Prelude.{
  ℕ, ◌≤◌, ◌≡◌, ◌↔◌, refl, Bool, true, false, Option, none, some, List, [], ◌∷◌, length,
  length-append, suc, ◌+◌, if◌then◌else◌, arith,
}
use shadowvpn_ios.Prelude.Result.{Result, ok, err}
use shadowvpn_ios.Crypto.{Primitives}
use shadowvpn_ios.Config.{RuntimeConfig, ConfigError}
use shadowvpn_ios.Intercept.{Setup}
use shadowvpn_ios.Engine.{ingest_queue_depth}
use shadowvpn_ios.Engine.Session.{
  pos, negsuc, Session, Process, left_over, already_running, link_of, start, stop, stop_blocking,
  is_running, try_send, ingest, recv, close, Event, starts, stops, stops_blocking, ingests,
  receives, send_fails, egress_leaves, ingress_leaves, in_session, after_recv, step, initial, run,
}

-- `RUNNING` is set exactly while the slot holds a session.
abbrev Agrees : Bool → Option Session → Type 0
Agrees true none = ⊥
Agrees true (some s) = length s.queue ≤ ingest_queue_depth
Agrees false none = Unit
Agrees false (some s) = ⊥

-- The flag and the slot agree, and the queue is within its bound.
unfoldable pub IsValid : Process → Type 0
IsValid proc = Agrees proc.running proc.session

session_step :
    (f : Session → Session)
    → ((s : Session)
        → length s.queue ≤ ingest_queue_depth
        → length (f s).queue ≤ ingest_queue_depth)
    → (running : Bool) (session : Option Session) (m n : ℕ) → Agrees running session
    → IsValid (
        in_session f
          (record { running = running; session = session; egress_left = m; ingress_left = n }))
unfolding IsValid in_session
session_step f h true none m n v = absurd v
session_step f h true (some s) m n v = h s v
session_step f h false none m n v = v
session_step f h false (some s) m n v = absurd v

after_recv_shrinks :
    (s : Session)
    → length s.queue ≤ ingest_queue_depth
    → length (after_recv s).queue ≤ ingest_queue_depth
unfolding after_recv recv
after_recv_shrinks s h = ground arith

close_empties :
    (s : Session)
    → length s.queue ≤ ingest_queue_depth
    → length (close s).queue ≤ ingest_queue_depth
unfolding close
close_empties s h = omega arith

try_send_bounded :
    (packet : List ℕ) (s : Session)
    → length s.queue ≤ ingest_queue_depth
    → length (try_send packet s).0.queue ≤ ingest_queue_depth
unfolding try_send
try_send_bounded packet s h = ground (arith, length-append s.queue (packet ∷ []))

start-IsValid :
    (p : Primitives) (parsed : Result ConfigError RuntimeConfig) (connects : Bool)
    (built : Option Setup) (proc : Process)
    → IsValid proc
    → IsValid (step (starts p parsed connects built) proc)
unfolding step start IsValid
start-IsValid p parsed connects built proc v = ground arith

stop-IsValid : (proc : Process) → IsValid proc → IsValid (stop proc)
unfolding stop IsValid
stop-IsValid proc v = ground arith

stop_blocking-IsValid :
    (joins : Bool) (proc : Process) → IsValid proc → IsValid (stop_blocking joins proc)
unfolding stop_blocking IsValid
stop_blocking-IsValid joins proc v = ground arith

ingest_parts :
    (packet : List ℕ) (running : Bool) (session : Option Session) (m n : ℕ)
    → Agrees running session
    → IsValid
        (ingest packet
          (record { running = running; session = session; egress_left = m; ingress_left = n })).0
unfolding ingest IsValid
ingest_parts packet true none m n v = absurd v
ingest_parts packet true (some s) m n v = try_send_bounded packet s v
ingest_parts packet false none m n v = v
ingest_parts packet false (some s) m n v = absurd v

ingest-IsValid : (packet : List ℕ) (proc : Process) → IsValid proc → IsValid (ingest packet proc).0
unfolding ingest IsValid
ingest-IsValid packet proc v =
    ingest_parts packet proc.running proc.session proc.egress_left proc.ingress_left v

-- Every event keeps the flag, the slot and the bound on the queue as they should be.
pub step-IsValid : (e : Event) (proc : Process) → IsValid proc → IsValid (step e proc)
unfolding step IsValid
step-IsValid (starts p parsed connects built) proc v = start-IsValid p parsed connects built proc v
step-IsValid stops proc v = stop-IsValid proc v
step-IsValid (stops_blocking joins) proc v = stop_blocking-IsValid joins proc v
step-IsValid (ingests packet) proc v = ingest-IsValid packet proc v
step-IsValid receives proc v =
    session_step after_recv after_recv_shrinks proc.running proc.session proc.egress_left
      proc.ingress_left v
step-IsValid send_fails proc v =
    session_step close close_empties proc.running proc.session proc.egress_left proc.ingress_left v
step-IsValid egress_leaves proc v = v
step-IsValid ingress_leaves proc v = v

run_keeps : (es : List Event) (proc : Process) → IsValid proc → IsValid (run es proc)
run_keeps [] proc v = v
run_keeps (e ∷ es) proc v = run_keeps es (step e proc) (step-IsValid e proc v)

-- After any history of the process, `RUNNING` is set exactly while there is a session, and no more than
-- 1024 packets wait in its channel.
pub run-IsValid : (es : List Event) → IsValid (run es initial)
run-IsValid es = run_keeps es initial (unfold IsValid in tt)

-- How many egress tasks may still call back: the one of the session in the slot, and those that no stop
-- has joined.
abbrev pub callers : Process → ℕ
callers proc = left_over proc.session proc.egress_left

-- The stops of a history that do not join the egress task.
abbrev pub unjoined : List Event → ℕ
unjoined [] = 0
unjoined (stops ∷ es) = suc (unjoined es)
unjoined (stops_blocking false ∷ es) = suc (unjoined es)
unjoined (_ ∷ es) = unjoined es

-- The session in the slot accounts for one egress task, a stop that joins for none, and every other
-- stop for one at most.
step-unjoined :
    (e : Event) (running : Bool) (session : Option Session) (m n : ℕ)
    → let proc : Process = record {
      running = running;
      session = session;
      egress_left = m;
      ingress_left = n;
    } in
      IsValid proc → (step e proc).egress_left ≤ m + unjoined (e ∷ [])
unfolding IsValid step start stop stop_blocking ingest in_session left_over
step-unjoined (starts p parsed connects built) running session m n v = ground arith
step-unjoined stops running session m n v = ground arith
step-unjoined (stops_blocking false) running session m n v = ground arith
step-unjoined (stops_blocking true) running session m n v = ground arith
step-unjoined (ingests packet) running session m n v = ground arith
step-unjoined receives running session m n v = ground arith
step-unjoined send_fails running session m n v = ground arith
step-unjoined egress_leaves running session m n v = omega arith
step-unjoined ingress_leaves running session m n v = omega arith

unjoined-cons : (e : Event) (es : List Event) → unjoined (e ∷ es) ≡ unjoined (e ∷ []) + unjoined es
unjoined-cons (starts p parsed connects built) es = omega arith
unjoined-cons stops es = omega arith
unjoined-cons (stops_blocking false) es = omega arith
unjoined-cons (stops_blocking true) es = omega arith
unjoined-cons (ingests packet) es = omega arith
unjoined-cons receives es = omega arith
unjoined-cons send_fails es = omega arith
unjoined-cons egress_leaves es = omega arith
unjoined-cons ingress_leaves es = omega arith

run-unjoined :
    (es : List Event) (proc : Process)
    → IsValid proc
    → (run es proc).egress_left ≤ proc.egress_left + unjoined es
run-unjoined [] proc v = omega arith
run-unjoined (e ∷ es) proc v = omega (
  arith,
  unjoined-cons e es,
  step-unjoined e proc.running proc.session proc.egress_left proc.ingress_left v,
  run-unjoined es (step e proc) (step-IsValid e proc v),
)

callers_lem :
    (joins : Bool) (running : Bool) (session : Option Session) (m n : ℕ)
    → let proc : Process = record {
      running = running;
      session = session;
      egress_left = m;
      ingress_left = n;
    } in
      IsValid proc
      → (callers proc ≡ m + (if running then 1 else 0)) × (callers (stop_blocking true proc) ≡ m)
unfolding IsValid stop_blocking left_over
callers_lem joins running session m n v = ground arith

-- After any history, at most as many egress tasks may still call back as the history has stops that did
-- not join theirs, and one more while `RUNNING` is set. A blocking stop whose join is in time takes that
-- one away: only those that earlier stops did not join are left, so none where all did.
pub stop_blocking_quiet :
    (es : List Event)
    → let proc = run es initial in
      (callers proc ≤ unjoined es + (if proc.running then 1 else 0))
      × (callers (stop_blocking true proc) ≤ unjoined es)
stop_blocking_quiet es =
    let proc = run es initial in
    let (now, then_) =
      callers_lem true proc.running proc.session proc.egress_left proc.ingress_left
        (run-IsValid es) in
    let left = run-unjoined es initial (unfold IsValid in tt) in
    (omega (arith, now, left), omega (arith, then_, left))

-- What makes `ingest` return -1: there is no session, or its ingress task has ended.
abbrev pub Refuses : Option Session → Type 0
Refuses none = Unit
Refuses (some s) = s.receiving ≡ false

-- `ingest` returns -1 exactly when there is no session or its ingress task has ended.
ingest_codes :
    (packet : List ℕ) (proc : Process) → ((ingest packet proc).1 ≡ negsuc 0) ↔ Refuses proc.session
unfolding ingest try_send
ingest_codes packet proc = (ground arith, ground arith)

-- A packet that finds the channel full is dropped with 0, and nothing changes.
ingest_full :
    (packet : List ℕ) (proc : Process) (s : Session)
    → proc.session ≡ some s
    → s.receiving ≡ true
    → length s.queue ≡ ingest_queue_depth
    → ingest packet proc ≡ (proc, pos 0)
unfolding ingest try_send
ingest_full packet proc s e r full = ground arith

stop_clears : (proc : Process) → (stop proc).running ≡ false
unfolding stop
stop_clears proc = ground arith

start_stopped :
    (p : Primitives) (cfg : RuntimeConfig) (built : Option Setup) (packet : List ℕ) (old : Process)
    → old.running ≡ false
    → (proc : Process) × (start p (ok cfg) true built old ≡ ok proc)
      × (is_running proc ≡ true)
      × ((ingest packet proc).1 ≡ pos 0)
      × (start p (ok cfg) true built proc ≡ err already_running)
unfolding start is_running ingest try_send
start_stopped p cfg built packet old h = (
  record old {
    running = true;
    session = some (record { link = link_of p cfg built; queue = []; receiving = true });
    egress_left = left_over old.session old.egress_left;
    ingress_left = left_over old.session old.ingress_left;
  },
  rw h refl,
  refl,
  refl,
  refl,
)

-- After any history, a stop makes a new start with an accepted configuration and a connected socket
-- succeed, and the new session takes its first packet; a second start is then refused.
restart :
    (es : List Event) (p : Primitives) (cfg : RuntimeConfig) (built : Option Setup)
    (packet : List ℕ)
    → (proc : Process) × (start p (ok cfg) true built (stop (run es initial)) ≡ ok proc)
      × (is_running proc ≡ true)
      × ((ingest packet proc).1 ≡ pos 0)
      × (start p (ok cfg) true built proc ≡ err already_running)
restart es p cfg built packet =
    start_stopped p cfg built packet (stop (run es initial)) (stop_clears (run es initial))
