-- ===== src/Intercept/Replies.antt =====
-- dns_intercept.rs, `try_handle_tunneled_reply`: what it consumes, and what it does not.
use shadowvpn_ios.Prelude.{
  ℕ, ◌^◌, ◌≤◌, ◌<◌, ◌≡◌, ◌≢◌, refl, true, false, ◌||◌, not, Option, none, some, List, [], ◌∷◌,
  length, ◌==◌, arith,
}
use shadowvpn_ios.Prelude.Outcome.{Outcome, ret, on_none, Safe, ret-Safe, if-Safe, on_none-Safe}
use shadowvpn_ios.Packet.{dns_port, txid, build_udp_ipv4, parse_udp_dns_query}
use shadowvpn_ios.Packet.Safety.{parse_udp_dns_query-Safe}
use shadowvpn_ios.Packet.RoundTrip.{parse-build, parse-build_other}
use shadowvpn_ios.Intercept.{Pending, Setup, State, update, try_handle_tunneled_reply}

option-Safe {ℓ κ} :
    {A : Type ℓ} {B : Type κ} (o : Option B) {d : Outcome A} {f : B → Outcome A}
    → Safe d
    → ((b : B) → Safe (f b))
    → Safe (elim o as (λ _. Outcome A) [ none ↦ d | some b ↦ f b ])
option-Safe none hd hf = hd
option-Safe (some b) hd hf = hf b

module _ (setup : Setup) where
  -- A reply that a resolver at `dns_remote:53` sends to a client port other than 53 is never consumed:
  -- nothing is emitted for it and no query stops being pending. Addresses and the port are in range.
  pub reply_from_remote_forwarded :
      (client_ip client_port : ℕ) (payload : List ℕ) (s : State)
      → setup.dns_remote_ip < 2 ^ 32
      → client_ip < 2 ^ 32
      → client_port < 2 ^ 16
      → client_port ≢ dns_port
      → try_handle_tunneled_reply setup
          (build_udp_ipv4 setup.dns_remote_ip dns_port client_ip client_port payload)
          s
        ≡ ret (s, [], false)
  unfolding try_handle_tunneled_reply
  reply_from_remote_forwarded client_ip client_port payload s hr hc hp ne =
      rw
        (
          parse-build_other setup.dns_remote_ip dns_port client_ip client_port payload hr hc hp ne,
          on_none,
        )
        refl

  -- A packet to `dns_remote:53` with a payload of at most 65507 bytes whose transaction id is pending
  -- is consumed: its payload is emitted to the client of the pending query, from the server that the
  -- client asked, and that query alone is pending no more. Addresses and ports are in range.
  pub query_to_remote_consumed :
      (client_ip client_port : ℕ) (payload : List ℕ) (s : State) (id : ℕ) (p : Pending)
      → setup.dns_remote_ip < 2 ^ 32
      → client_ip < 2 ^ 32
      → client_port < 2 ^ 16
      → length payload ≤ 65507
      → txid payload ≡ some id
      → s.pending id ≡ some p
      → try_handle_tunneled_reply setup
          (build_udp_ipv4 client_ip client_port setup.dns_remote_ip dns_port payload)
          s
        ≡ ret (
          record s { pending = update s.pending id none },
          build_udp_ipv4 p.server_ip p.server_port p.client_ip p.client_port payload ∷ [],
          true,
        )
  unfolding try_handle_tunneled_reply
  query_to_remote_consumed client_ip client_port [] s id p hr hc hp hi known waiting =
      absurd (unfold txid in cc)
  query_to_remote_consumed client_ip client_port (b ∷ bs) s id p hr hc hp hi known waiting =
      rw
        (
          parse-build client_ip client_port setup.dns_remote_ip (b ∷ bs) hc hp hr (omega arith) hi,
          on_none,
        )
        (ground (arith, known, waiting))

  -- No packet makes `try_handle_tunneled_reply` panic.
  try_handle_tunneled_reply-Safe :
      (packet : List ℕ) (s : State) → Safe (try_handle_tunneled_reply setup packet s)
  unfolding try_handle_tunneled_reply
  try_handle_tunneled_reply-Safe packet s =
      on_none-Safe (parse_udp_dns_query packet) (parse_udp_dns_query-Safe packet) (ret-Safe _) λ q.
        if-Safe (not (q.server_port == dns_port) || not (q.server_ip == setup.dns_remote_ip))
          (λ _. ret-Safe (s, [], false))
          λ _.
            option-Safe (txid q.dns) (ret-Safe (s, [], false))
              λ id. option-Safe (s.pending id) (ret-Safe (s, [], false)) λ p. ret-Safe _
