-- ===== src/Inspect/Tests.antt =====
-- Runs of the inspection, and its properties at concrete payloads.
use shadowvpn_ios.Prelude.{ℕ, ◌≡◌, refl, inl, List, [], ◌∷◌, ◌++◌, arith}
use shadowvpn_ios.Prelude.Outcome.{ret}
use shadowvpn_ios.Text.{codes, trim, trim_end}
use shadowvpn_ios.Dns.{join}
use shadowvpn_ios.Dns.Message.Fixtures.{dns_query}
use shadowvpn_ios.Dns.Message.Samples.{labels, labels-IsLabel}
use shadowvpn_ios.Inspect.{dns, http, describe, split_crlf}
use shadowvpn_ios.Inspect.Request.{Field, Request, request_head, host_of}
use shadowvpn_ios.Inspect.Flows.{describe_http}
use shadowvpn_ios.Inspect.Queries.{udp53, describe-udp53}
use shadowvpn_ios.Inspect.Samples.{ip, tcp, ip-IsIpHeader, web-IsTcpHeader}

abbrev good_request : List ℕ
good_request = codes "GET / HTTP/1.1" ++ (13 ∷ 10 ∷ (codes "Host: a.b" ++ (13 ∷ 10 ∷ [])))

split_runs : split_crlf good_request ≡ codes "GET / HTTP/1.1" ∷ codes "Host: a.b" ∷ [] ∷ []
unfolding split_crlf
split_runs = refl

abbrev accept : Field
accept = record { name = codes "Accept"; value = codes " */*" }

abbrev host : Field
host = record { name = codes "HOST"; value = codes " a.com" }

abbrev request : Request
request = record { method = codes "GET "; target = codes "/ HTTP/1.1"; fields = accept ∷ host ∷ [] }

describe_http_example :
    describe (ip ++ (tcp 0 80 ++ (request_head request ++ (13 ∷ 10 ∷ 0xFF ∷ []))))
    ≡ ret (http (trim_end (codes "GET ")) (codes "a.com"))
describe_http_example =
    describe_http ip (tcp 0 80) (13 ∷ 10 ∷ 0xFF ∷ []) (codes "a.com") request 5 5 ip-IsIpHeader
      web-IsTcpHeader (inl refl) (omega arith)
      (
        record { name_ok = omega arith; no_colon = omega arith; value_ok = omega arith },
        (record { name_ok = omega arith; no_colon = omega arith; value_ok = omega arith }, tt),
      )
      (unfold request_head in omega arith) (unfold host_of trim in refl)

describe-udp53_example :
    describe (udp53 (dns_query 0 (join labels))) ≡ ret (dns (codes "A") (codes "a.b"))
describe-udp53_example = describe-udp53 (codes "A") (codes "b" ∷ []) labels-IsLabel
