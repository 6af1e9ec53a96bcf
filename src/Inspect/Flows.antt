-- ===== src/Inspect/Flows.antt =====
-- inspect.rs: `describe` on whole packets.
use shadowvpn_ios.Prelude.{
  ℕ, ◌+◌, ◌*◌, ◌/◌, ◌%◌, ◌≤◌, ◌<◌, ◌≡◌, refl, sym, ap, ◌∙◌, true, false, List, ◌∷◌, ◌++◌, length,
  drop-append, ◌||◌, get_or, ltb, length-append, Any, All, be16, bit_and, bit_and_0f, arith, ◌==◌,
  if◌then◌else◌,
}
use shadowvpn_ios.Prelude.Cursor.{index-append_left}
use shadowvpn_ios.Prelude.Outcome.{Outcome, ret, nothing, ◌>>=◌}
use shadowvpn_ios.Inspect.{
  Flow, tls, http, get_from, describe, describe_udp, describe_tcp, tls_flow, http_flow, methods,
}
use shadowvpn_ios.Inspect.Hello.{Hello, IsHello, client_hello, server_of}
use shadowvpn_ios.Inspect.Hello.Sni.{tls_sni-client_hello}
use shadowvpn_ios.Inspect.Request.{Request, field_lines, request_head, IsInLine, IsField, host_of}
use shadowvpn_ios.Inspect.Request.Host.{http_host-request_head}
use shadowvpn_ios.Text.{trim_end}

-- An IPv4 header of `n` words, with its options.
pub record IsIpHeader (ip : List ℕ) (proto n : ℕ) : Type 0 where
  pub at_least : 5 ≤ n
  pub at_most : n ≤ 15
  pub len : length ip ≡ n * 4
  pub version_ihl : get_or ip 0 0 ≡ 64 + n
  pub protocol : get_or ip 9 0 ≡ proto

-- A TCP header of `n` words, with its options.
pub record IsTcpHeader (tcp : List ℕ) (port n : ℕ) : Type 0 where
  pub at_least : 5 ≤ n
  pub at_most : n ≤ 15
  pub len : length tcp ≡ n * 4
  pub port_hi : get_or tcp 2 0 ≡ port / 256
  pub port_lo : get_or tcp 3 0 ≡ port % 256
  pub data_offset : get_or tcp 12 0 / 16 ≡ n

get_from-append : (xs ys : List ℕ) (n : ℕ) → n ≡ length xs → get_from (xs ++ ys) n ≡ ret ys
unfolding get_from
get_from-append xs ys n e = let d = drop-append n xs ys e in ground (arith, d, length-append xs ys)

pub describe-ip :
    (ip l4 : List ℕ) (proto n : ℕ)
    → IsIpHeader ip proto n
    → describe (ip ++ l4)
      ≡ (if proto == 17 then describe_udp l4 else if proto == 6 then describe_tcp l4 else nothing)
unfolding describe
describe-ip ip l4 proto n v =
    let pkt = ip ++ l4 in
    let long : ltb (length pkt) 20 ≡ false = ground (arith, length-append ip l4, v.len) in
    let at = λ (i : ℕ) (h : i < length ip). index-append_left ip l4 i h in
    let nibble : bit_and (64 + n) 0x0f ≡ n =
      bit_and_0f (64 + n) (omega (arith, v.at_most)) ∙ omega (arith, v.at_most) in
    let version : ((64 + n) / 16 == 4) ≡ true = ground (arith, v.at_most) in
    let sane : (ltb (n * 4) 20 || ltb (length pkt) (n * 4)) ≡ false =
      ground (arith, v.at_least, length-append ip l4, v.len) in
    rw
      (
        long,
        at 0 (omega (arith, v.len)),
        v.version_ihl,
        nibble,
        version,
        sane,
        at 9 (omega (arith, v.len)),
        v.protocol,
        at 19 (omega (arith, v.len)),
        get_from-append ip l4 (n * 4) (sym v.len),
      )
      refl

describe_tcp-segment :
    (tcp payload : List ℕ) (port n : ℕ)
    → IsTcpHeader tcp port n
    → 0 < length payload
    → describe_tcp (tcp ++ payload) ≡ (
        if port == 443 then tls_flow payload else if port == 80 then http_flow payload else nothing)
unfolding describe_tcp
describe_tcp-segment tcp payload port n v some_bytes =
    let l4 = tcp ++ payload in
    let long : ltb (length l4) 20 ≡ false = ground (arith, length-append tcp payload, v.len) in
    let at = λ (i : ℕ) (h : i < length tcp). index-append_left tcp payload i h in
    let dport : be16 (port / 256) (port % 256) ≡ port = omega arith in
    let bytes : (length payload == 0) ≡ false = ground arith in
    rw
      (
        long,
        at 2 (omega (arith, v.len)),
        v.port_hi,
        at 3 (omega (arith, v.len)),
        v.port_lo,
        dport,
        at 12 (omega (arith, v.len)),
        v.data_offset,
        get_from-append tcp payload (n * 4) (sym v.len),
        bytes,
      )
      refl

-- A TCP segment in a packet.
describe-segment :
    (ip tcp payload : List ℕ) (port n m : ℕ)
    → IsIpHeader ip 6 n
    → IsTcpHeader tcp port m
    → 0 < length payload
    → describe (ip ++ (tcp ++ payload)) ≡ (
        if port == 443 then tls_flow payload else if port == 80 then http_flow payload else nothing)
describe-segment ip tcp payload port n m v w some_bytes =
    describe-ip ip (tcp ++ payload) 6 n v ∙ describe_tcp-segment tcp payload port m w some_bytes

-- What is printed for a host.
abbrev pub tls_line : Outcome (List ℕ) → Outcome Flow
tls_line host = do name ← host; ret (tls name)

request_pos : (r : Request) (rest : List ℕ) → 0 < length (request_head r ++ rest)
unfolding request_head
request_pos r rest =
    let start = r.method ++ r.target in
    omega (
      arith,
      length-append start (13 ∷ 10 ∷ field_lines r.fields),
      length-append (start ++ (13 ∷ 10 ∷ field_lines r.fields)) rest,
    )

-- A packet to port 443, with any options, whose payload starts with a ClientHello is described by the
-- host of the first server_name extension of the hello, also where that host is empty; it is not described
-- where there is no such extension.
pub describe_tls :
    (ip tcp rest : List ℕ) (hello : Hello) (n m : ℕ)
    → IsIpHeader ip 6 n
    → IsTcpHeader tcp 443 m
    → IsHello hello
    → describe (ip ++ (tcp ++ (client_hello hello ++ rest))) ≡ tls_line (server_of hello.extensions)
unfolding tls_flow client_hello
describe_tls ip tcp rest hello n m v w h =
    describe-segment ip tcp (client_hello hello ++ rest) 443 n m v w (omega arith)
    ∙ ap tls_line (tls_sni-client_hello hello rest h)

-- A packet to port 80, with any options, whose payload starts with an ASCII request by a method that
-- the code knows is described by that method and the value of the first Host field that is not blank,
-- where there is one and the head fits into 1024 bytes.
pub describe_http :
    (ip tcp rest host : List ℕ) (r : Request) (n m : ℕ)
    → IsIpHeader ip 6 n
    → IsTcpHeader tcp 80 m
    → Any (λ k. r.method ≡ k) methods
    → All IsInLine r.target
    → All IsField r.fields
    → length (request_head r) ≤ 1024
    → host_of r.fields ≡ ret host
    → describe (ip ++ (tcp ++ (request_head r ++ rest))) ≡ ret (http (trim_end r.method) host)
unfolding http_flow
describe_http ip tcp rest host r n m v w known target fields short e =
    describe-segment ip tcp (request_head r ++ rest) 80 n m v w (request_pos r rest)
    ∙ rw (http_host-request_head r rest host known target fields short e) refl
