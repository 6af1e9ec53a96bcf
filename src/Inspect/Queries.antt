-- ===== src/Inspect/Queries.antt =====
-- inspect.rs: `describe` on DNS queries, and the builder `udp53` of its unit tests.
use shadowvpn_ios.Prelude.{
  ℕ, ◌<◌, ◌≡◌, refl, ap, ◌∙◌, false, List, [], ◌∷◌, ◌++◌, length, set, replicate, drop-append,
  get_or, ltb, length-append, All, arith,
}
use shadowvpn_ios.Prelude.Cursor.{index-append_left}
use shadowvpn_ios.Prelude.Outcome.{ret}
use shadowvpn_ios.Text.{codes}
use shadowvpn_ios.Text.Utf8.{to_ascii_lowercase}
use shadowvpn_ios.Dns.{question, build_query, join, type_a, class_in}
use shadowvpn_ios.Dns.Labels.{IsLabel}
use shadowvpn_ios.Dns.RoundTrip.{question-build_query}
use shadowvpn_ios.Dns.Message.Fixtures.{dns_query, dns_query-build_query}
use shadowvpn_ios.Inspect.{dns, qtype_name, describe, describe_udp}
use shadowvpn_ios.Inspect.Flows.{IsIpHeader, describe-ip}

-- A UDP header to port 53.
pub record IsUdpHeader (udp : List ℕ) : Type 0 where
  pub len : length udp ≡ 8
  pub port_hi : get_or udp 2 0 ≡ 0
  pub port_lo : get_or udp 3 0 ≡ 53

describe_udp-question :
    (udp msg name : List ℕ) (qtype qclass : ℕ)
    → IsUdpHeader udp
    → question msg ≡ ret (name, qtype, qclass)
    → describe_udp (udp ++ msg) ≡ ret (dns (qtype_name qtype) name)
unfolding describe_udp
describe_udp-question udp msg name qtype qclass v asked =
    let l4 = udp ++ msg in
    let long : ltb (length l4) 8 ≡ false = ground (arith, length-append udp msg, v.len) in
    let at = λ (i : ℕ) (h : i < length udp). index-append_left udp msg i h in
    rw
      (
        long,
        at 2 (omega (arith, v.len)),
        v.port_hi,
        at 3 (omega (arith, v.len)),
        v.port_lo,
        drop-append 8 udp msg (omega (arith, v.len)),
        asked,
      )
      refl

-- A UDP packet to port 53, with any IPv4 options, that holds the query for a name of allowed labels is
-- described as a query for the A records of the name in lower case.
describe_dns :
    (ip udp l : List ℕ) (ls : List (List ℕ)) (n id : ℕ)
    → IsIpHeader ip 17 n
    → IsUdpHeader udp
    → All IsLabel (l ∷ ls)
    → describe (ip ++ (udp ++ build_query id (join (l ∷ ls))))
      ≡ ret (dns (codes "A") (to_ascii_lowercase (join (l ∷ ls))))
unfolding qtype_name
describe_dns ip udp l ls n id v w h =
    let msg = build_query id (join (l ∷ ls)) in
    describe-ip ip (udp ++ msg) 17 n v
    ∙ describe_udp-question udp msg (to_ascii_lowercase (join (l ∷ ls))) type_a class_in w
        (question-build_query id l ls h)

abbrev headers : List ℕ
headers = set (set (set (set (replicate 28 0) 0 0x45) 9 17) 22 0) 23 53

unfoldable pub udp53 : List ℕ → List ℕ
udp53 msg = headers ++ msg

-- The same of the packet that the unit tests build.
pub describe-udp53 :
    (l : List ℕ) (ls : List (List ℕ))
    → All IsLabel (l ∷ ls)
    → describe (udp53 (dns_query 0 (join (l ∷ ls))))
      ≡ ret (dns (codes "A") (to_ascii_lowercase (join (l ∷ ls))))
unfolding udp53
describe-udp53 l ls h =
    ap (λ (m : List ℕ). describe (udp53 m)) (dns_query-build_query 0 l ls h)
    ∙ describe_dns (0x45 ∷ 0 ∷ 0 ∷ 0 ∷ 0 ∷ 0 ∷ 0 ∷ 0 ∷ 0 ∷ 17 ∷ replicate 10 0)
        (0 ∷ 0 ∷ 0 ∷ 53 ∷ 0 ∷ 0 ∷ 0 ∷ 0 ∷ []) l ls 5 0
        (record {
          at_least = omega arith;
          at_most = omega arith;
          len = refl;
          version_ihl = refl;
          protocol = refl;
        })
        (record { len = refl; port_hi = refl; port_lo = refl }) h
