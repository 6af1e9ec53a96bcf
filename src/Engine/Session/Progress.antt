-- ===== src/Engine/Session/Progress.antt =====
-- engine.rs: a packet that `ingest` has queued, until the ingress task takes it.
use shadowvpn_ios.Prelude.{
  ℕ, suc, ◌<◌, ◌≡◌, refl, ap, ◌∙◌, Bool, true, false, Option, none, some, List, [], ◌∷◌, ◌++◌,
  append_assoc, length, ltb, ◌-◌, ◌⊎◌, inl, inr, All, arith, Bool-cases,
}
use shadowvpn_ios.Engine.{Link, ingest_queue_depth}
use shadowvpn_ios.Engine.Session.{
  Process, start, try_send, ingest, recv, Event, starts, stops, stops_blocking, ingests, receives,
  send_fails, egress_leaves, ingress_leaves, in_session, after_recv, step, run,
}

-- The events that do not end the session.
abbrev pub IsCalm : Event → Type 0
IsCalm stops = ⊥
IsCalm (stops_blocking joins) = ⊥
IsCalm send_fails = ⊥
IsCalm (starts p parsed connects built) = Unit
IsCalm (ingests packet) = Unit
IsCalm receives = Unit
IsCalm egress_leaves = Unit
IsCalm ingress_leaves = Unit

-- How often the ingress task takes a packet.
abbrev pub takes : List Event → ℕ
takes [] = 0
takes (receives ∷ es) = suc (takes es)
takes (e ∷ es) = takes es

-- A running process with the queue.
abbrev pub holding : Link → List (List ℕ) → Bool → ℕ → ℕ → Process
holding link queue receiving m n = record {
  running = true;
  session = some (record { link = link; queue = queue; receiving = receiving });
  egress_left = m;
  ingress_left = n;
}

-- What the ingress task takes next.
pub next_packet : Process → Option (List ℕ)
unfolding recv
next_packet proc = elim proc.session [
  | none ↦ none
  | some s ↦ elim (recv s) [ none ↦ none | some (packet, s') ↦ some packet ]
]

-- A packet that comes in stands at the end, or is dropped, or is refused.
ingest_cases :
    (link : Link) (queue : List (List ℕ)) (receiving : Bool) (m n : ℕ) (bytes : List ℕ)
    → let next = step (ingests bytes) (holding link queue receiving m n) in
      (next ≡ holding link (queue ++ bytes ∷ []) receiving m n)
      ⊎ (next ≡ holding link queue receiving m n)
unfolding step ingest try_send
ingest_cases link queue false m n bytes = inr refl
ingest_cases link queue true m n bytes = elim (Bool-cases (ltb (length queue) ingest_queue_depth)) [
  | inl e ↦ inl (rw e refl)
  | inr e ↦ inr (rw e refl)
]

waits :
    (es : List Event) (link : Link) (before after : List (List ℕ)) (receiving : Bool) (m n : ℕ)
    (packet : List ℕ)
    → All IsCalm es
    → takes es ≡ length before
    → next_packet (run es (holding link (before ++ packet ∷ after) receiving m n)) ≡ some packet
unfolding next_packet step start recv in_session after_recv
waits [] link [] after receiving m n packet c h = refl
waits [] link (b ∷ before) after receiving m n packet c h = absurd (omega arith)
waits (starts p parsed connects built ∷ es) link before after receiving m n packet (c, cs) h =
    waits es link before after receiving m n packet cs h
waits (stops ∷ es) link before after receiving m n packet (c, cs) h = absurd c
waits (stops_blocking joins ∷ es) link before after receiving m n packet (c, cs) h = absurd c
waits (send_fails ∷ es) link before after receiving m n packet (c, cs) h = absurd c
waits (egress_leaves ∷ es) link before after receiving m n packet (c, cs) h =
    waits es link before after receiving (m - 1) n packet cs h
waits (ingress_leaves ∷ es) link before after receiving m n packet (c, cs) h =
    waits es link before after receiving m (n - 1) packet cs h
waits (receives ∷ es) link [] after receiving m n packet (c, cs) h = absurd (omega arith)
waits (receives ∷ es) link (b ∷ before) after receiving m n packet (c, cs) h =
    waits es link before after receiving m n packet cs (omega arith)
waits (ingests bytes ∷ es) link before after receiving m n packet (c, cs) h =
    elim (ingest_cases link (before ++ packet ∷ after) receiving m n bytes) [
      | inl e ↦
          ap (λ proc. next_packet (run es proc)) e
          ∙ ap (λ q. next_packet (run es (holding link q receiving m n)))
              (append_assoc before (packet ∷ after) (bytes ∷ []))
          ∙ waits es link before (after ++ bytes ∷ []) receiving m n packet cs h
      | inr e ↦
          ap (λ proc. next_packet (run es proc)) e
          ∙ waits es link before after receiving m n packet cs h
    ]

-- A packet that `ingest` takes into a queue with room reaches the ingress task: after any further events
-- that do not end the session, among them as many takes as packets stood before it, it is the next packet
-- that the task takes. Later packets, dropped ones included, and refused starts never displace it.
pub ingested-next :
    (packet : List ℕ) (es : List Event) (link : Link) (queue : List (List ℕ)) (m n : ℕ)
    → length queue < ingest_queue_depth
    → All IsCalm es
    → takes es ≡ length queue
    → next_packet (run (ingests packet ∷ es) (holding link queue true m n)) ≡ some packet
unfolding step ingest try_send
ingested-next packet es link queue m n room calm h =
    let has_room : ltb (length queue) ingest_queue_depth ≡ true = ground arith in
    rw has_room (waits es link queue [] true m n packet calm h)
