-- ===== src/Inspect.antt =====
-- core/rust/shadowvpn-ios-ffi/src/inspect.rs: what a packet's flow is for. A string is the list of its
-- UTF-8 bytes; cutting it at an index that is not the start of a character panics, as `line[..5]` does.
pub mod Hello
pub mod Flows
pub mod Http
pub mod Queries
pub mod Request
pub mod Samples
pub mod Tls
mod Tests
use shadowvpn_ios.Prelude.{
  ℕ, zero, suc, ◌+◌, ◌-◌, ◌*◌, ◌/◌, ◌%◌, ◌≤◌, Bool, true, false, ◌&&◌, ◌||◌, not, Option, none,
  some, List, [], ◌∷◌, ◌++◌, length, min, take, drop, get_or, ltb, leb, ◌==◌, if◌then◌else◌,
  bit_and, be16, map,
}
use shadowvpn_ios.Prelude.Outcome.{Outcome, ret, nothing, panic, ◌>>=◌, index, get}
use shadowvpn_ios.Text.{Text, codes, text_eq, trim, trim_end, as_bytes}
use shadowvpn_ios.Text.Utf8.{from_utf8_lossy, is_utf8, chars, to_ascii_lowercase}
use shadowvpn_ios.Dns.{question}

-- What `describe` returns, before it is printed.
pub data Flow : Type 0 where
  dns : Text → List ℕ → Flow
  tls : List ℕ → Flow
  http : Text → List ℕ → Flow

unfoldable pub qtype_name : ℕ → Text
qtype_name qtype =
    if qtype == 1
    then codes "A"
    else if qtype == 28
    then codes "AAAA"
    else if qtype == 5
    then codes "CNAME"
    else if qtype == 15
    then codes "MX"
    else if qtype == 16
    then codes "TXT"
    else if qtype == 33
    then codes "SRV"
    else if qtype == 65
    then codes "HTTPS"
    else codes "?"

-- `b.get(from..)?` and `b.get(from..to)?`
pub get_from : List ℕ → ℕ → Outcome (List ℕ)
get_from b from = if ltb (length b) from then nothing else ret (drop from b)

pub get_range : List ℕ → ℕ → ℕ → Outcome (List ℕ)
get_range b from to =
    if ltb to from || ltb (length b) to then nothing else ret (take (to - from) (drop from b))

-- The server_name extension.
pub server_name : List ℕ → Outcome (List ℕ)
server_name body = if ltb (length body) 5 then nothing else do
  name_type ← index body 2
  if not (name_type == 0) then nothing else do
    hi ← index body 3
    lo ← index body 4
    name ← get_range body 5 (5 + be16 hi lo)
    if is_utf8 name then ret name else nothing

-- The loop over the extensions. A round takes four bytes at least.
pub sni_loop : ℕ → List ℕ → ℕ → ℕ → Outcome (List ℕ)
sni_loop zero rec p ext_end = nothing
sni_loop (suc fuel) rec p ext_end = if ltb ext_end (p + 4) then nothing else do
  t0 ← index rec p
  t1 ← index rec (p + 1)
  l0 ← index rec (p + 2)
  l1 ← index rec (p + 3)
  body ← get_range rec (p + 4) (p + 4 + be16 l0 l1)
  if be16 t0 t1 == 0 then server_name body else sni_loop fuel rec (p + 4 + be16 l0 l1) ext_end

unfoldable pub tls_sni : List ℕ → Outcome (List ℕ)
unfolding sni_loop server_name get_from get_range
tls_sni b = do
  content_type ← get b 0
  if not (content_type == 0x16) then nothing else do
    rec ← get_from b 5
    msg_type ← get rec 0
    if not (msg_type == 0x01) then nothing else do
      sid_len ← get rec 38
      let p = 39 + sid_len
      cs0 ← get rec p
      cs1 ← get rec (p + 1)
      let q = p + 2 + be16 cs0 cs1
      cm_len ← get rec q
      let r = q + 1 + cm_len
      e0 ← get rec r
      e1 ← get rec (r + 1)
      sni_loop (length rec) rec (r + 2) (min (r + 2 + be16 e0 e1) (length rec))

abbrev pub methods : List Text
methods =
    codes "GET "
    ∷ codes "POST "
    ∷ codes "HEAD "
    ∷ codes "PUT "
    ∷ codes "DELETE "
    ∷ codes "OPTIONS "
    ∷ codes "PATCH "
    ∷ codes "CONNECT "
    ∷ []

pub starts_with : List ℕ → List ℕ → Bool
starts_with s [] = true
starts_with [] (c ∷ p) = false
starts_with (d ∷ s) (c ∷ p) = d == c && starts_with s p

-- `METHODS.iter().find(..)`
pub find_method : List Text → List ℕ → Outcome Text
unfolding starts_with
find_method [] head = nothing
find_method (m ∷ ms) head = if starts_with head m then ret (trim_end m) else find_method ms head

abbrev pub push_byte : ℕ → List (List ℕ) → List (List ℕ)
push_byte c [] = (c ∷ []) ∷ []
push_byte c (line ∷ lines) = (c ∷ line) ∷ lines

-- `split("\r\n")`
pub split_crlf : List ℕ → List (List ℕ)
split_crlf [] = [] ∷ []
split_crlf (c ∷ []) = (c ∷ []) ∷ []
split_crlf (c ∷ d ∷ s) =
    let skipped = split_crlf s in
    let rest = split_crlf (d ∷ s) in if c == 13 && d == 10 then [] ∷ skipped else push_byte c rest

-- `line[..i]` for an `i` within the string.
pub slice_to : List ℕ → ℕ → Outcome (List ℕ)
slice_to line i =
    let c = get_or line i 0 in if leb 0x80 c && leb c 0xBF then panic else ret (take i line)

-- A line of five bytes or more; `rest` is what the lines behind it give.
pub host_line : List ℕ → Outcome (List ℕ) → Outcome (List ℕ)
unfolding slice_to
host_line line rest = do
  name ← slice_to line 5
  let host = as_bytes (trim (chars (drop 5 line)))
  if text_eq (to_ascii_lowercase name) (codes "host:") && not (length host == 0)
      then ret host
      else rest

-- The loop over the lines.
pub host_loop : List (List ℕ) → Outcome (List ℕ)
unfolding host_line
host_loop [] = nothing
host_loop (line ∷ lines) =
    let rest = host_loop lines in if leb 5 (length line) then host_line line rest else rest

unfoldable pub http_host : List ℕ → Outcome (Text × List ℕ)
unfolding find_method split_crlf host_loop
http_host b = do
  let head = from_utf8_lossy (take (min (length b) 1024) b)
  method ← find_method methods head
  host ← host_loop (split_crlf head)
  ret (method, host)

-- The two transports of `describe`.
pub describe_udp : List ℕ → Outcome Flow
unfolding get_from
describe_udp l4 = if ltb (length l4) 8 then nothing else do
  hi ← index l4 2
  lo ← index l4 3
  if not (be16 hi lo == 53) then nothing else do
    msg ← get_from l4 8
    (name, qtype, qclass) ← question msg
    ret (dns (qtype_name qtype) name)

pub tls_flow : List ℕ → Outcome Flow
tls_flow payload = do host ← tls_sni payload; ret (tls host)

pub http_flow : List ℕ → Outcome Flow
http_flow payload = do (method, host) ← http_host payload; ret (http method host)

pub describe_tcp : List ℕ → Outcome Flow
unfolding get_from tls_flow http_flow
describe_tcp l4 = if ltb (length l4) 20 then nothing else do
  hi ← index l4 2
  lo ← index l4 3
  offset ← index l4 12
  payload ← get_from l4 (offset / 16 * 4)
  if length payload == 0
      then nothing
      else if be16 hi lo == 443
      then tls_flow payload
      else if be16 hi lo == 80
      then http_flow payload
      else nothing

unfoldable pub describe : List ℕ → Outcome Flow
unfolding describe_udp describe_tcp get_from
describe pkt = if ltb (length pkt) 20 then nothing else do
  first ← index pkt 0
  let ihl = bit_and first 0x0f * 4
  if not (first / 16 == 4)
      then nothing
      else if ltb ihl 20 || ltb (length pkt) ihl
      then nothing
      else do
        proto ← index pkt 9
        _ ← index pkt 19
        l4 ← get_from pkt ihl
        if proto == 17 then describe_udp l4 else if proto == 6 then describe_tcp l4 else nothing
