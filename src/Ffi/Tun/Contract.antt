-- ===== src/Ffi/Tun/Contract.antt =====
-- lib.rs: the calls on the tunnel, against the contract of the session.
use shadowvpn_ios.Prelude.{
  ℕ, zero, suc, ◌≡◌, Bool, Option, none, some, List, [], ◌∷◌, take, if◌then◌else◌,
}
use shadowvpn_ios.Prelude.Result.{Result}
use shadowvpn_ios.Text.{Text, codes}
use shadowvpn_ios.Config.{from_json}
use shadowvpn_ios.Engine.Session.{ℤ, pos, negsuc, Process, Event, step}
use shadowvpn_ios.Engine.Session.Contract.{
  Tunnel, Answer, code, packet, nothing, is_up, spec, view, answer,
}
use shadowvpn_ios.Ffi.{Host, Env, cstr_to_str, bridge}
use shadowvpn_ios.Intercept.{Setup}
use shadowvpn_ios.Ffi.Tun.{
  Platform, built_for, svpn_tun_start, svpn_tun_ingest, svpn_tun_stop, svpn_tun_stop_blocking,
  svpn_is_running,
}

-- A call of the C interface on the tunnel, or what a task of the session does between two calls: the
-- ingress task takes a packet, or ends because a send fails, and an aborted task leaves.
pub data Call : Type 0 where
  start_call : Platform → Option (List ℕ) → Call
  ingest_call : Option (List ℕ) → ℕ → Call
  stop_call : Call
  stop_blocking_call : Bool → Call
  is_running_call : Call
  takes_step sending_fails_step egress_leaves_step ingress_leaves_step : Call

-- A task's own step.
task : Event → Host → ℤ × Host
task e h = (pos 0, record h { process = step e h.process })

-- The call, with 0 for the code of what returns nothing.
pub perform : Env → Call → Host → ℤ × Host
unfolding task
perform env (start_call p json) h = svpn_tun_start env p json h
perform env (ingest_call memory len) h = svpn_tun_ingest memory len h
perform env stop_call h = (pos 0, svpn_tun_stop env h)
perform env (stop_blocking_call joins) h = (pos 0, svpn_tun_stop_blocking env joins h)
perform env is_running_call h = (svpn_is_running h, h)
perform env takes_step h = task Event.receives h
perform env sending_fails_step h = task Event.send_fails h
perform env egress_leaves_step h = task Event.egress_leaves h
perform env ingress_leaves_step h = task Event.ingress_leaves h

-- The event of the session that a call or step is, if it is one; `built` is the interceptor for a configuration.
pub event_of : (Platform → Text → Option Setup) → Call → Option Event
event_of built (start_call p json) = elim (cstr_to_str json) [
  | none ↦ none
  | some text ↦
      some
        (Event.starts p.primitives (from_json p.primitives p.json text) p.connects (built p text))
]
event_of built (ingest_call none len) = none
event_of built (ingest_call (some memory) zero) = none
event_of built (ingest_call (some memory) (suc n)) = some (Event.ingests (take (suc n) memory))
event_of built stop_call = some Event.stops
event_of built (stop_blocking_call joins) = some (Event.stops_blocking joins)
event_of built is_running_call = none
event_of built takes_step = some Event.receives
event_of built sending_fails_step = some Event.send_fails
event_of built egress_leaves_step = some Event.egress_leaves
event_of built ingress_leaves_step = some Event.ingress_leaves

-- The code of a call that is no event: -1 for a configuration that cannot be read, 0 for an empty packet,
-- and whether the tunnel is up.
pub idle_code : Call → Tunnel → ℤ
idle_code (start_call p json) t = negsuc 0
idle_code is_running_call t = if is_up t then pos 1 else pos 0
idle_code _ t = pos 0

pub code_of : Answer → ℤ
code_of (code z) = z
code_of (packet p) = pos 0
code_of nothing = pos 0

pub spec_event : Option Event → ℤ → Tunnel → ℤ × Tunnel
unfolding code_of
spec_event none idle t = (idle, t)
spec_event (some e) idle t = let (t', a) = spec e t in (code_of a, t')

-- The contract of a call. It knows no interceptor.
pub spec_call : Call → Tunnel → ℤ × Tunnel
spec_call c t = spec_event (event_of (λ p text. none) c) (idle_code c t) t

-- The code of an event, and the process after it.
real_event : Option Event → ℤ → Process → ℤ × Process
unfolding code_of
real_event none idle proc = (idle, proc)
real_event (some e) idle proc = (code_of (answer e proc), step e proc)

-- The code and the process.
abbrev seen : ℤ × Host → ℤ × Process
seen (z, h) = (z, h.process)

-- The interceptor that a call builds on the host's disk.
abbrev built_in : Env → Host → Platform → Text → Option Setup
built_in env h p text =
    built_for env p (bridge env (codes "svpn_tun_start") h).log.disk
      (from_json p.primitives p.json text)

Simple : Env → Call → Host → Type 0
Simple env c h =
    seen (perform env c h)
    ≡ real_event (event_of (built_in env h) c) (idle_code c (view h.process)) h.process

-- The codes of a history of calls and task steps, each with what it finds around it.
pub perform_all : List (Env × Call) → Host → List ℤ
perform_all [] h = []
perform_all ((env, c) ∷ cs) h = (perform env c h).0 ∷ perform_all cs (perform env c h).1

pub spec_codes : List (Env × Call) → Tunnel → List ℤ
spec_codes [] t = []
spec_codes ((env, c) ∷ cs) t = (spec_call c t).0 ∷ spec_codes cs (spec_call c t).1
