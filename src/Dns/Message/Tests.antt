-- ===== src/Dns/Message/Tests.antt =====
-- The properties at a concrete response.
use shadowvpn_ios.Prelude.{ℕ, ◌≤◌, ◌≡◌, refl, [], ◌∷◌, ◌++◌, All, Any}
use shadowvpn_ios.Prelude.Outcome.{ret}
use shadowvpn_ios.Dns.{a_records, min_ttl}
use shadowvpn_ios.Dns.Message.{message_wire, addresses}
use shadowvpn_ios.Dns.Message.Answers.{a_records-message, min_ttl-message}
use shadowvpn_ios.Dns.Message.Samples.{alias, found, reply, reply-IsMessage}

a_records-message_example : a_records (message_wire reply ++ (0 ∷ [])) ≡ ret (0x01020304 ∷ [])
unfolding addresses
a_records-message_example = a_records-message reply (0 ∷ []) reply-IsMessage

min_ttl-message_example :
    (t : ℕ) × (min_ttl (message_wire reply ++ []) ≡ ret t)
    × Any (λ r. r.ttl ≡ t) (alias ∷ found ∷ [])
    × All (λ r. t ≤ r.ttl) (alias ∷ found ∷ [])
min_ttl-message_example = min_ttl-message reply alias (found ∷ []) [] refl reply-IsMessage
