-- ===== src/Engine/Session/Contract.antt =====
-- engine.rs: the tunnel as its callers see it, without the flag, the tasks that are left and the link. The
-- specification is a machine of its own; the histories of the process are compared with it.
use shadowvpn_ios.Prelude.{
  ℕ, ◌≡◌, Bool, true, false, ◌&&◌, Option, none, some, List, [], ◌∷◌, ◌++◌, length, ltb,
  if◌then◌else◌, arith,
}
use shadowvpn_ios.Prelude.Result.{Result, ok, err}
use shadowvpn_ios.Config.{RuntimeConfig, ConfigError}
use shadowvpn_ios.Engine.Session.{
  ℤ, pos, negsuc, Session, Process, start, stop, stop_blocking, is_running, try_send, ingest, recv,
  close, Event, starts, stops, stops_blocking, ingests, receives, send_fails, egress_leaves,
  ingress_leaves, in_session, after_recv, step,
}
use shadowvpn_ios.Engine.Session.Lifecycle.{IsValid}

-- No tunnel; or a tunnel with the packets that wait in it, oldest first, and whether it takes more.
pub data Tunnel : Type 0 where
  down : Tunnel
  up : List (List ℕ) → Bool → Tunnel

-- What an event gives back.
pub data Answer : Type 0 where
  code : ℤ → Answer
  packet : Option (List ℕ) → Answer
  nothing : Answer

abbrev pub is_usable : Result ConfigError RuntimeConfig → Bool
is_usable (ok cfg) = true
is_usable (err e) = false

-- A bounded queue of packets behind a switch: the contract.
unfoldable pub spec : Event → Tunnel → Tunnel × Answer
spec (starts p parsed connects built) down =
    if is_usable parsed && connects then (up [] true, code (pos 0)) else (down, code (negsuc 0))
spec (starts p parsed connects built) (up queue takes) = (up queue takes, code (negsuc 0))
spec stops t = (down, nothing)
spec (stops_blocking joins) t = (down, nothing)
spec (ingests bytes) down = (down, code (negsuc 0))
spec (ingests bytes) (up queue false) = (up queue false, code (negsuc 0))
spec (ingests bytes) (up queue true) =
    (if ltb (length queue) 1024 then up (queue ++ bytes ∷ []) true else up queue true, code (pos 0))
spec receives down = (down, packet none)
spec receives (up [] takes) = (up [] takes, packet none)
spec receives (up (bytes ∷ queue) takes) = (up queue takes, packet (some bytes))
spec send_fails down = (down, nothing)
spec send_fails (up queue takes) = (up [] false, nothing)
spec egress_leaves t = (t, nothing)
spec ingress_leaves t = (t, nothing)

-- The tunnel that a process is.
pub view : Process → Tunnel
view proc = elim proc.session [ none ↦ down | some s ↦ up s.queue s.receiving ]

abbrev received : Option (List ℕ × Session) → Option (List ℕ)
received none = none
received (some (bytes, s)) = some bytes

-- What an event gives back from a process.
unfoldable pub answer : Event → Process → Answer
unfolding start recv
answer (starts p parsed connects built) proc = elim (start p parsed connects built proc) [
  | err e ↦ code (negsuc 0)
  | ok proc' ↦ code (pos 0)
]
answer (ingests bytes) proc = code (ingest bytes proc).1
answer receives proc = elim proc.session [
  | none ↦ packet none
  | some s ↦ packet (received (recv s))
]
answer _ proc = nothing

abbrev pub Refines : Event → Process → Type 0
Refines e proc =
    (view (step e proc) ≡ (spec e (view proc)).0) × (answer e proc ≡ (spec e (view proc)).1)

-- The step on the parts of a process.
parts_refine :
    (e : Event) (running : Bool) (session : Option Session) (m n : ℕ)
    → IsValid (record { running = running; session = session; egress_left = m; ingress_left = n })
    → Refines e (record { running = running; session = session; egress_left = m; ingress_left = n })
unfolding view spec answer step start stop stop_blocking ingest try_send recv in_session after_recv
    close IsValid
parts_refine e running session m n v = ground arith

pub step-Refines : (e : Event) (proc : Process) → IsValid proc → Refines e proc
step-Refines e proc v =
    parts_refine e proc.running proc.session proc.egress_left proc.ingress_left v

-- The answers of a history, oldest first.
pub answers : List Event → Process → List Answer
answers [] proc = []
answers (e ∷ es) proc = answer e proc ∷ answers es (step e proc)

pub spec_run : List Event → Tunnel → Tunnel
spec_run [] t = t
spec_run (e ∷ es) t = spec_run es (spec e t).0

pub spec_answers : List Event → Tunnel → List Answer
spec_answers [] t = []
spec_answers (e ∷ es) t = (spec e t).1 ∷ spec_answers es (spec e t).0

abbrev pub is_up : Tunnel → Bool
is_up down = false
is_up (up queue takes) = true

pub is_running-view : (proc : Process) → IsValid proc → is_running proc ≡ is_up (view proc)
unfolding IsValid is_running view
is_running-view proc v = ground arith
