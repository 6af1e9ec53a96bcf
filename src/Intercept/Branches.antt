-- ===== src/Intercept/Branches.antt =====
-- dns_intercept.rs: `try_intercept`, branch by branch.
use shadowvpn_ios.Prelude.{
  ℕ, ◌≡◌, ◌≢◌, refl, true, false, ◌||◌, not, Option, none, some, List, [], ◌∷◌, ◌==◌, arith, inl,
  inr, ◌⊎◌,
}
use shadowvpn_ios.Prelude.Outcome.{
  ret, nothing, ◌>>=◌, on_none, Safe, ret-Safe, if-Safe, bind-Safe, on_none-Safe,
}
use shadowvpn_ios.Prelude.Result.{ok}
use shadowvpn_ios.Chnroute.{contains}
use shadowvpn_ios.Crypto.{encrypt_packet}
use shadowvpn_ios.Dns.{question, a_records, type_a, class_in}
use shadowvpn_ios.Dns.Safety.{parsers-Safe}
use shadowvpn_ios.Packet.{ParsedQuery, txid, build_udp_ipv4, parse_udp_dns_query}
use shadowvpn_ios.Packet.Safety.{parse_udp_dns_query-Safe}
use shadowvpn_ios.Intercept.{
  Setup, State, Random, update, pending_of, shape, Plan, forward, relay, race, classify, response,
  send_clean_tunneled, clear_pending, is_domestic, begin, finish, try_intercept,
}

classify-Safe : (packet : List ℕ) → Safe (classify packet)
unfolding classify
classify-Safe packet =
    on_none-Safe (parse_udp_dns_query packet) (parse_udp_dns_query-Safe packet) (ret-Safe forward)
      λ q.
        on_none-Safe (question q.dns) (parsers-Safe q.dns).1 (ret-Safe forward)
          λ (name, qtype, qclass).
            if-Safe (not (qtype == type_a) || not (qclass == class_in)) (λ _. ret-Safe (relay q))
              (λ _. ret-Safe (race q))

-- A parsed question has a transaction id.
txid_of_question :
    (dns : List ℕ) (r : List ℕ × ℕ × ℕ) → question dns ≡ ret r → (id : ℕ) × (txid dns ≡ some id)
unfolding question txid
txid_of_question [] r h = absurd (ground arith)
txid_of_question (a ∷ []) r h = absurd (ground arith)
txid_of_question (a ∷ b ∷ rest) r h = (_, refl)

-- The state while the domestic answer of `q` is awaited: the query is pending under its id.
abbrev pub waiting : Random → State → ParsedQuery → ℕ → List ℕ → State
waiting rnd s q id datagram = record s {
  pending = update s.pending id (some (pending_of q));
  obfuscator = (shape rnd.byte s.obfuscator datagram).1;
}

-- The clean copy on the wire.
abbrev pub wire : Random → State → List ℕ → List ℕ
wire rnd s datagram = (shape rnd.byte s.obfuscator datagram).0

-- The state without a pending query of that id.
abbrev pub clear : ℕ → State → State
clear id s = record s { pending = update s.pending id none }

module _ (setup : Setup) where
  finish-Safe :
      (plan : Plan) (answer : Option (List ℕ)) (s : State) → Safe (finish setup plan answer s)
  unfolding finish
  finish-Safe forward answer s = ret-Safe _
  finish-Safe (relay q) none s = ret-Safe _
  finish-Safe (relay q) (some answer) s = ret-Safe _
  finish-Safe (race q) none s = ret-Safe _
  finish-Safe (race q) (some answer) s =
      bind-Safe (a_records answer) (parsers-Safe answer).3
        (λ ips _. if-Safe (is_domestic setup ips) (λ _. ret-Safe _) (λ _. ret-Safe _))

  -- No packet and no domestic answer makes `try_intercept` panic.
  pub try_intercept-Safe :
      (rnd : Random) (packet : List ℕ) (answer : Option (List ℕ)) (s : State)
      → Safe (try_intercept setup rnd packet answer s)
  unfolding try_intercept
  try_intercept-Safe rnd packet answer s =
      bind-Safe (classify packet) (classify-Safe packet) λ plan _.
        bind-Safe (finish setup plan answer (begin setup rnd plan s).0)
          (finish-Safe plan answer (begin setup rnd plan s).0)
          (λ (s', emitted, taken) _. ret-Safe _)

  module _ (rnd : Random) (packet : List ℕ) (s : State) where
    -- What is neither an IPv4 UDP packet to port 53 nor holds a question is left to the caller: nothing
    -- is sent or emitted, and the state stays.
    pub try_intercept_forward :
        (answer : Option (List ℕ))
        → (parse_udp_dns_query packet ≡ nothing)
          ⊎ (q : ParsedQuery) × (parse_udp_dns_query packet ≡ ret q) × (question q.dns ≡ nothing)
        → try_intercept setup rnd packet answer s ≡ ret (s, [], false, [])
    unfolding try_intercept classify begin finish
    try_intercept_forward answer (inl e) = rw (e, on_none)
    try_intercept_forward answer (inr (q, e, n)) = rw (e, on_none) (rw (n, on_none))

    module _ (q : ParsedQuery) (name : List ℕ) (parsed : parse_udp_dns_query packet ≡ ret q) where
      -- Any other question than A/IN is taken and answered by the domestic resolver's answer as it
      -- is; without an answer it is dropped. Nothing goes down the tunnel, and the state stays.
      pub try_intercept_relay :
          (qtype qclass : ℕ)
          → question q.dns ≡ ret (name, qtype, qclass)
          → (qtype ≢ type_a) ⊎ (qclass ≢ class_in)
          → ((answer : List ℕ)
              → try_intercept setup rnd packet (some answer) s
                ≡ ret (s, response q answer ∷ [], true, []))
            × (try_intercept setup rnd packet none s ≡ ret (s, [], true, []))
      unfolding try_intercept
      try_intercept_relay qtype qclass asked other =
          let plan : classify packet ≡ ret (relay q) =
            unfold classify in rw (parsed, on_none) (rw (asked, on_none) (ground arith)) in
          (
            λ answer. rw (plan, ◌>>=◌) (unfold begin finish in refl),
            rw (plan, ◌>>=◌) (unfold begin finish in refl),
          )

      classify_race : question q.dns ≡ ret (name, type_a, class_in) → classify packet ≡ ret (race q)
      unfolding classify
      classify_race asked = rw (parsed, on_none) (rw (asked, on_none))

      module _ (asked : question q.dns ≡ ret (name, type_a, class_in)) (id : ℕ)
          (known : txid q.dns ≡ some id) (datagram : List ℕ)
          (sealed : encrypt_packet setup.primitives setup.cipher rnd.salt setup.master_key (
              build_udp_ipv4 q.client_ip q.client_port setup.dns_remote_ip setup.dns_remote_port
                q.dns)
            ≡ ok datagram) where
        begin_race :
            begin setup rnd (race q) s ≡ (waiting rnd s q id datagram, wire rnd s datagram ∷ [])
        unfolding begin send_clean_tunneled
        begin_race = ground (arith, known, sealed)

        -- An A/IN query whose clean copy can be sealed and whose domestic answer starts with a foreign
        -- address: the clean copy goes down the tunnel, nothing is emitted, and the query stays pending
        -- under its id.
        pub try_intercept_foreign :
            (answer : List ℕ) (ip : ℕ) (ips : List ℕ)
            → a_records answer ≡ ret (ip ∷ ips)
            → contains setup.chnroute ip ≡ false
            → try_intercept setup rnd packet (some answer) s
              ≡ ret (waiting rnd s q id datagram, [], true, wire rnd s datagram ∷ [])
        unfolding try_intercept
        try_intercept_foreign answer ip ips got foreign =
            rw (classify_race asked, ◌>>=◌)
              (rw begin_race (unfold finish is_domestic in rw (got, ◌>>=◌) (rw foreign refl)))

        -- An A/IN query whose clean copy can be sealed and which the domestic resolver does not answer:
        -- the clean copy goes down the tunnel, nothing is emitted, and the query stays pending under
        -- its id.
        try_intercept_unanswered :
            try_intercept setup rnd packet none s
            ≡ ret (waiting rnd s q id datagram, [], true, wire rnd s datagram ∷ [])
        unfolding try_intercept
        try_intercept_unanswered =
            rw (classify_race asked, ◌>>=◌) (rw begin_race (unfold finish in refl))

        -- An A/IN query whose clean copy can be sealed and whose domestic answer starts with a domestic
        -- address or holds no address: the answer is emitted and the query is pending no more, though
        -- the clean copy has been sent.
        pub try_intercept_domestic :
            (answer ips : List ℕ)
            → a_records answer ≡ ret ips
            → is_domestic setup ips ≡ true
            → try_intercept setup rnd packet (some answer) s
              ≡ ret (
                clear id (waiting rnd s q id datagram),
                response q answer ∷ [],
                true,
                wire rnd s datagram ∷ [],
              )
        unfolding try_intercept clear_pending
        try_intercept_domestic answer ips got domestic =
            rw (classify_race asked, ◌>>=◌)
              (rw begin_race
                (unfold finish in rw (got, ◌>>=◌) (rw domestic (rw (known, clear_pending) refl))))
