-- ===== src/Ffi/Tun/Starts.antt =====
-- lib.rs, `svpn_tun_start`: its result on every branch.
use shadowvpn_ios.Prelude.{
  ℕ, ◌≡◌, ◌⊎◌, inl, inr, refl, sym, ◌∙◌, subst, Bool, true, false, Bool-cases, ◌==◌, Option, some,
  List, [], arith,
}
use shadowvpn_ios.Prelude.Result.{Result, ok, err, ok_injective}
use shadowvpn_ios.Text.{Text, codes}
use shadowvpn_ios.Config.{
  RuntimeConfig, ConfigError, invalid_json, server_empty, unsupported_cipher, requires_dns_local,
  requires_dns_remote, requires_chnroute_path, from_json,
}
use shadowvpn_ios.Config.Validation.{
  Acceptable, Result-cases, from_json-Acceptable, from_json_accepts,
}
use shadowvpn_ios.Crypto.{Primitives}
use shadowvpn_ios.Intercept.{Setup}
use shadowvpn_ios.Engine.Session.{
  ℤ, pos, negsuc, Process, Session, StartError, already_running, config, socket, left_over, link_of,
  start,
}
use shadowvpn_ios.Ffi.{Host, Env, cstr_to_str, fail, bridge, svpn_core_last_error}
use shadowvpn_ios.Ffi.Failures.{Failed, fail-Failed, NonEmpty, to_cstring-NonEmpty}
use shadowvpn_ios.Ffi.Tun.{
  Platform, server_of, built_for, config_message, start_message, start_with, svpn_tun_start,
}

-- What `engine::start` does with the text.
abbrev pub started : Env → Platform → Text → Host → Result StartError Process
started env p text h =
    let parsed = from_json p.primitives p.json text in
    let disk = (bridge env (codes "svpn_tun_start") h).log.disk in
    start p.primitives parsed p.connects (built_for env p disk parsed) h.process

-- The message of an error of `engine::start`.
abbrev pub message_of : Env → Platform → Text → StartError → Text
message_of env p text e =
    start_message env.os.error_text (server_of (from_json p.primitives p.json text)) e

-- 0 and the started process, with no new error; or -1 and the message, with the process as it was.
abbrev pub Decides : Env → Platform → Text → Host → Result StartError Process → ℤ × Host → Type 0
Decides env p text h (ok process) (z, h') =
    (z ≡ pos 0) × (h'.process ≡ process) × (h'.last_error ≡ h.last_error)
Decides env p text h (err e) (z, h') = (z ≡ negsuc 0) × Failed env (message_of env p text e) h h'

Decides-reply :
    (env : Env) (p : Platform) (text : Text) (h : Host) (r : Result StartError Process)
    → Decides env p text h r (elim r [
      | ok process ↦ (pos 0, record (bridge env (codes "svpn_tun_start") h) { process = process })
      | err e ↦ (
        negsuc 0,
        fail env
            (codes "svpn_tun_start ERROR: ")
            (message_of env p text e)
            (bridge env (codes "svpn_tun_start") h),
      )
    ])
Decides-reply env p text h (ok process) = (refl, refl, refl)
Decides-reply env p text h (err e) = (
  refl,
  fail-Failed env (codes "svpn_tun_start ERROR: ") (message_of env p text e)
      (bridge env (codes "svpn_tun_start") h),
)

start_with-Decides :
    (env : Env) (p : Platform) (text : Text) (h : Host)
    → Decides env p text h (started env p text h) (start_with env p text h)
unfolding start_with
start_with-Decides env p text h = Decides-reply env p text h (started env p text h)

reply-Decides :
    (env : Env) (p : Platform) (config_json : Option (List ℕ)) (h : Host) (text : Text)
    → cstr_to_str config_json ≡ some text
    → Decides env p text h (started env p text h) (svpn_tun_start env p config_json h)
unfolding svpn_tun_start
reply-Decides env p config_json h text e =
    let same : svpn_tun_start env p config_json h ≡ start_with env p text h =
      rw (e, svpn_tun_start) in
    subst (Decides env p text h (started env p text h)) (sym same) (start_with-Decides env p text h)

-- No error of `start` is without a message.
config_message-NonEmpty : (e : ConfigError) → NonEmpty (config_message e)
unfolding config_message
config_message-NonEmpty (invalid_json text) = tt
config_message-NonEmpty server_empty = tt
config_message-NonEmpty (unsupported_cipher e) = tt
config_message-NonEmpty requires_dns_local = tt
config_message-NonEmpty requires_dns_remote = tt
config_message-NonEmpty requires_chnroute_path = tt

start_message-NonEmpty :
    (text server : Text) (e : StartError) → NonEmpty (start_message text server e)
unfolding start_message
start_message-NonEmpty text server already_running = tt
start_message-NonEmpty text server (config x) = config_message-NonEmpty x
start_message-NonEmpty text server socket = tt

-- What a start needs: no tunnel that runs, a configuration to accept, and a socket that connects.
abbrev pub Startable : Platform → Text → Process → Type 0
Startable p text proc = (proc.running ≡ false) × (p.connects ≡ true) × Acceptable p.json text

-- A session that takes packets and has none yet.
abbrev pub IsFresh : Process → Type 0
IsFresh proc =
    (proc.running ≡ true)
    × ((s : Session) × (proc.session ≡ some s) × (s.queue ≡ []) × (s.receiving ≡ true))

-- The call did what it should: a fresh session and no new error.
abbrev pub Succeeds : Host → ℤ × Host → Type 0
Succeeds h (z, h') = (z ≡ pos 0) × IsFresh h'.process × (h'.last_error ≡ h.last_error)

-- The call failed: the process is as it was, the thread has a message to read, and the other threads
-- have what they had.
abbrev pub Fails : Env → Host → ℤ × Host → Type 0
Fails env h (z, h') =
    (z ≡ negsuc 0)
    × (h'.process ≡ h.process)
    × NonEmpty (svpn_core_last_error env h')
    × ((t : ℕ) → (t == env.thread) ≡ false → h'.last_error t ≡ h.last_error t)

-- The process that `start` leaves.
abbrev begun : Primitives → RuntimeConfig → Option Setup → Process → Process
begun prims cfg built proc = record {
  running = true;
  session = some (record { link = link_of prims cfg built; queue = []; receiving = true });
  egress_left = left_over proc.session proc.egress_left;
  ingress_left = left_over proc.session proc.ingress_left;
}

start_idle :
    (prims : Primitives) (cfg : RuntimeConfig) (built : Option Setup) (proc : Process)
    → proc.running ≡ false
    → start prims (ok cfg) true built proc ≡ ok (begun prims cfg built proc)
unfolding start
start_idle prims cfg built proc e = rw (e) refl

start-Startable :
    (prims : Primitives) (parsed : Result ConfigError RuntimeConfig) (connects : Bool)
    (built : Option Setup) (proc proc' : Process)
    → start prims parsed connects built proc ≡ ok proc'
    → (proc.running ≡ false)
      × (connects ≡ true)
      × ((cfg : RuntimeConfig) × (parsed ≡ ok cfg))
      × IsFresh proc'
unfolding start
start-Startable prims (err e) connects built proc proc' h = absurd (ground arith)
start-Startable prims (ok cfg) false built proc proc' h = absurd (ground arith)
start-Startable prims (ok cfg) true built proc proc' h = elim (Bool-cases proc.running) [
  | inl e ↦ absurd (ground (arith, e))
  | inr e ↦
      let same = ok_injective (sym (start_idle prims cfg built proc e) ∙ h) in
      (e, refl, (cfg, refl), subst IsFresh same (refl, (_, refl, refl, refl)))
]

start_refuses :
    (prims : Primitives) (parsed : Result ConfigError RuntimeConfig) (connects : Bool)
    (built : Option Setup) (proc : Process) (x : StartError) (cfg : RuntimeConfig)
    → start prims parsed connects built proc ≡ err x
    → proc.running ≡ false
    → connects ≡ true
    → parsed ≡ ok cfg
    → ⊥
unfolding start
start_refuses prims parsed connects built proc x cfg h idle reaches accepted =
    ground (arith, idle, reaches, accepted)

-- With a configuration that can be read, the call returns 0 exactly where no tunnel runs, the
-- configuration can be accepted and the socket connects; then the process has a fresh session, and no
-- thread a new error. Else it returns -1, the process is as it was, the calling thread has a message
-- that is not empty, and the other threads have what they had.
pub svpn_tun_start-Decides :
    (env : Env) (p : Platform) (config_json : Option (List ℕ)) (h : Host) (text : Text)
    → cstr_to_str config_json ≡ some text
    → Startable p text h.process × Succeeds h (svpn_tun_start env p config_json h)
      ⊎ (¬ Startable p text h.process) × Fails env h (svpn_tun_start env p config_json h)
unfolding svpn_core_last_error
svpn_tun_start-Decides env p config_json h text e =
    let decided = reply-Decides env p config_json h text e in
    elim (Result-cases (started env p text h)) [
      | inl (process, ran) ↦
          let (z, same, quiet) : Decides env p text h (ok process)
              (svpn_tun_start env p config_json h) =
            subst (λ r. Decides env p text h r (svpn_tun_start env p config_json h)) ran decided in
          let (idle, reaches, (cfg, accepted), is_fresh) =
            start-Startable p.primitives _ p.connects _ h.process process ran in
          inl (
            (idle, reaches, from_json-Acceptable p.primitives p.json text cfg accepted),
            (z, subst IsFresh (sym same) is_fresh, quiet),
          )
      | inr (x, refused) ↦
          let (z, (last, others, same)) : Decides env p text h (err x)
              (svpn_tun_start env p config_json h) =
            subst (λ r. Decides env p text h r (svpn_tun_start env p config_json h)) refused
              decided in
          let message =
            start_message-NonEmpty env.os.error_text
              (server_of (from_json p.primitives p.json text)) x in
          inr (
            λ (idle, reaches, (raw, c, parsed, server, cipher, fields)).
                let (cfg, accepted, _) =
                  from_json_accepts p.primitives p.json text raw c parsed server cipher fields in
                start_refuses p.primitives _ p.connects _ h.process x cfg refused idle reaches
                  accepted,
            (z, same, subst NonEmpty (sym last) (to_cstring-NonEmpty _ message), others),
          )
    ]
