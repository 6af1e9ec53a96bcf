-- ===== src/Intercept/History/Handlers.antt =====
-- dns_intercept.rs: what one handler does to the pending queries, and to whom it emits.
use shadowvpn_ios.Prelude.{
  ℕ, ◌≡◌, inl, inr, refl, sym, ap, subst, ◌∙◌, Bool, true, false, ◌||◌, not, Option, none, some,
  List, [], ◌∷◌, All, Any, ◌==◌, Bool-cases, ==_iff, Option-cases,
}
use shadowvpn_ios.Prelude.Result.{Result-cases}
use shadowvpn_ios.Prelude.Outcome.{
  Outcome, ret, nothing, panic, on_none, Returns, ret-Returns, if-Returns, bind-Returns,
}
use shadowvpn_ios.Obfs.{Obfuscator}
use shadowvpn_ios.Dns.{a_records}
use shadowvpn_ios.Crypto.{encrypt_packet}
use shadowvpn_ios.Packet.{ParsedQuery, dns_port, txid, build_udp_ipv4, parse_udp_dns_query}
use shadowvpn_ios.Intercept.{
  Pending, Setup, State, Random, update, pending_of, shape, Plan, forward, relay, race, response,
  send_clean_tunneled, clear_pending, is_domestic, finish, try_handle_tunneled_reply,
}
use shadowvpn_ios.Intercept.History.{queries_of}

-- The entry is that of one of the queries, under its transaction id.
abbrev pub IsFrom : List ParsedQuery → ℕ → Pending → Type 0
IsFrom asked id p = Any (λ q. (txid q.dns ≡ some id) × (pending_of q ≡ p)) asked

-- Every pending entry is that of one of the queries.
abbrev pub IsKnown : List ParsedQuery → State → Type 0
IsKnown asked s = (id : ℕ) (p : Pending) → s.pending id ≡ some p → IsFrom asked id p

-- The packet goes to the client of one of the queries, from the server that the client asked.
abbrev pub IsAnswer : List ParsedQuery → List ℕ → Type 0
IsAnswer asked packet = Any (λ q. (payload : List ℕ) × (packet ≡ response q payload)) asked

-- The plan's query is one of the queries.
abbrev pub IsAsked : List ParsedQuery → Plan → Type 0
IsAsked asked plan = All (λ q. Any (λ r. r ≡ q) asked) (queries_of plan)

pub Any-at :
    (P : ParsedQuery → Type 0) (q : ParsedQuery) (asked : List ParsedQuery)
    → Any (λ r. r ≡ q) asked
    → P q
    → Any P asked
Any-at P q [] h p = absurd h
Any-at P q (r ∷ asked) h p = elim h [
  | inl e ↦ inl (subst P (sym e) p)
  | inr h ↦ inr (Any-at P q asked h p)
]

pub Any-to :
    (P Q : ParsedQuery → Type 0) (asked : List ParsedQuery)
    → ((q : ParsedQuery) → P q → Q q)
    → Any P asked
    → Any Q asked
Any-to P Q [] f h = absurd h
Any-to P Q (q ∷ asked) f h = elim h [ inl p ↦ inl (f q p) | inr h ↦ inr (Any-to P Q asked f h) ]

pub none-some : {p : Pending} → none ≡ some p → ⊥
none-some e = cc

some_injective : {p q : Pending} → some p ≡ some q → p ≡ q
some_injective e = cc

panic-ret : {A : Type 0} {a : A} → panic ≡ ret a → ⊥
panic-ret e = cc

module _ (asked : List ParsedQuery) where
  updated-IsKnown :
      (s : State) (id : ℕ) (o : Option Pending) (obfuscator : Option Obfuscator)
      → IsKnown asked s
      → ((p : Pending) → o ≡ some p → IsFrom asked id p)
      → IsKnown asked (record { pending = update s.pending id o; obfuscator = obfuscator })
  updated-IsKnown s id o obfuscator known new id' p e = elim (Bool-cases (id == id')) [
    | inl same ↦ subst (λ i. IsFrom asked i p) ((==_iff id id').0 same) (new p (sym (rw same) ∙ e))
    | inr other ↦ known id' p (sym (rw other) ∙ e)
  ]

  clear_pending-IsKnown :
      (setup : Setup) (dns : List ℕ) (s : State)
      → IsKnown asked s
      → IsKnown asked (clear_pending setup dns s)
  unfolding clear_pending
  clear_pending-IsKnown setup dns s known = elim (Option-cases (txid dns)) [
    | inl e ↦ rw (e, clear_pending) known
    | inr (id, e) ↦
        rw (e, clear_pending)
          (updated-IsKnown s id none s.obfuscator known (λ p f. absurd (none-some f)))
  ]

  -- The outcome of a handler: the entries are those of queries, and so is every packet.
  abbrev pub IsFine : State × List (List ℕ) × Bool → Type 0
  IsFine (s, out, consumed) = IsKnown asked s × All (IsAnswer asked) out

  answered :
      (q : ParsedQuery) (payload : List ℕ)
      → Any (λ r. r ≡ q) asked
      → IsAnswer asked (response q payload)
  answered q payload h =
      Any-at (λ r. (bytes : List ℕ) × (response q payload ≡ response r bytes)) q asked h
        (payload, refl)

  pub finish-IsFine :
      (setup : Setup) (plan : Plan) (answer : Option (List ℕ)) (s : State)
      → IsKnown asked s
      → IsAsked asked plan
      → Returns IsFine (finish setup plan answer s)
  unfolding finish
  finish-IsFine setup forward answer s known a = ret-Returns IsFine _ (known, tt)
  finish-IsFine setup (relay q) none s known a = ret-Returns IsFine _ (known, tt)
  finish-IsFine setup (relay q) (some payload) s known (a, u) =
      ret-Returns IsFine _ (known, (answered q payload a, tt))
  finish-IsFine setup (race q) none s known a = ret-Returns IsFine _ (known, tt)
  finish-IsFine setup (race q) (some payload) s known (a, u) =
      bind-Returns IsFine (a_records payload) λ ips e.
        if-Returns IsFine (is_domestic setup ips)
          (λ _.
            ret-Returns IsFine _
              (clear_pending-IsKnown setup q.dns s known, (answered q payload a, tt)))
          (λ _. ret-Returns IsFine _ (known, tt))

  -- A reply that is paired goes out as the response to the query that it was paired with.
  paired :
      (id : ℕ) (p : Pending) (payload : List ℕ)
      → IsFrom asked id p
      → IsAnswer asked (build_udp_ipv4 p.server_ip p.server_port p.client_ip p.client_port payload)
  unfolding response pending_of
  paired id p payload h =
      Any-to (λ q. (txid q.dns ≡ some id) × (pending_of q ≡ p)) _ asked
        (λ q (e, f). (
          payload,
          ap
              (λ (r : Pending).
                build_udp_ipv4 r.server_ip r.server_port r.client_ip r.client_port payload)
              (sym f),
        ))
        h

  on_none-IsFine :
      {B : Type 0} (m : Outcome B) {d : Outcome (State × List (List ℕ) × Bool)}
      {f : B → Outcome (State × List (List ℕ) × Bool)}
      → Returns IsFine d
      → ((b : B) → Returns IsFine (f b))
      → Returns IsFine (on_none m d f)
  on_none-IsFine (ret b) h k = k b
  on_none-IsFine nothing h k = h
  on_none-IsFine panic h k = λ a e. absurd (panic-ret e)

  pending-IsFine :
      (payload : List ℕ) (s : State) (id : ℕ) (o : Option Pending)
      → IsKnown asked s
      → s.pending id ≡ o
      → Returns IsFine (elim o as (λ _. Outcome (State × List (List ℕ) × Bool)) [
        | none ↦ ret (s, [], false)
        | some p ↦ ret (
          record s { pending = update s.pending id none },
          build_udp_ipv4 p.server_ip p.server_port p.client_ip p.client_port payload ∷ [],
          true,
        )
      ])
  pending-IsFine payload s id none known e = ret-Returns IsFine _ (known, tt)
  pending-IsFine payload s id (some p) known e = ret-Returns IsFine _ (
    updated-IsKnown s id none s.obfuscator known (λ p f. absurd (none-some f)),
    (paired id p payload (known id p e), tt),
  )

  txid-IsFine :
      (payload : List ℕ) (s : State) (o : Option ℕ)
      → IsKnown asked s
      → Returns IsFine (elim o as (λ _. Outcome (State × List (List ℕ) × Bool)) [
        | none ↦ ret (s, [], false)
        | some id ↦ elim (s.pending id) [
          | none ↦ ret (s, [], false)
          | some p ↦ ret (
            record s { pending = update s.pending id none },
            build_udp_ipv4 p.server_ip p.server_port p.client_ip p.client_port payload ∷ [],
            true,
          )
        ]
      ])
  txid-IsFine payload s none known = ret-Returns IsFine _ (known, tt)
  txid-IsFine payload s (some id) known = pending-IsFine payload s id (s.pending id) known refl

  pub reply-IsFine :
      (setup : Setup) (plaintext : List ℕ) (s : State)
      → IsKnown asked s
      → Returns IsFine (try_handle_tunneled_reply setup plaintext s)
  unfolding try_handle_tunneled_reply
  reply-IsFine setup plaintext s known =
      on_none-IsFine (parse_udp_dns_query plaintext) (ret-Returns IsFine _ (known, tt)) λ q.
        if-Returns IsFine
          (not (q.server_port == dns_port) || not (q.server_ip == setup.dns_remote_ip))
          (λ _. ret-Returns IsFine _ (known, tt)) (λ _. txid-IsFine q.dns s (txid q.dns) known)

  pub send-IsKnown :
      (setup : Setup) (rnd : Random) (q : ParsedQuery) (s : State)
      → Any (λ r. r ≡ q) asked
      → IsKnown asked s
      → IsKnown asked (send_clean_tunneled setup rnd q s).0
  unfolding send_clean_tunneled
  send-IsKnown setup rnd q s a known = elim (Option-cases (txid q.dns)) [
    | inl e ↦ rw (e, send_clean_tunneled) known
    | inr (id, e) ↦
        let pkt =
          build_udp_ipv4 q.client_ip q.client_port setup.dns_remote_ip setup.dns_remote_port
            q.dns in
        elim (Result-cases
          (encrypt_packet setup.primitives setup.cipher rnd.salt setup.master_key pkt)) [
            | inl (datagram, f) ↦
                rw (e, f, send_clean_tunneled)
                  (updated-IsKnown s id (some (pending_of q))
                    (shape rnd.byte s.obfuscator datagram).1 known
                    (λ p g.
                      Any-at (λ r. (txid r.dns ≡ some id) × (pending_of r ≡ p)) q asked a
                        (e, some_injective g)))
            | inr (x, f) ↦
                rw (e, f, send_clean_tunneled)
                  (updated-IsKnown s id none s.obfuscator known (λ p g. absurd (none-some g)))
          ]
  ]
