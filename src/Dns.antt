-- ===== src/Dns.antt =====
-- core/rust/shadowvpn-ios-ffi/src/vendor/dns.rs: DNS wire parsing. A message is a list of bytes, a name
-- is the bytes of its UTF-8 string. `msg[i]` goes through `index`, which panics out of range.
pub mod Safety
pub mod Labels
pub mod RoundTrip
pub mod Queries
pub mod Message
pub mod Samples
use shadowvpn_ios.Prelude.{
  ℕ, zero, suc, ◌+◌, ◌-◌, ◌*◌, ◌^◌, ◌≤◌, Bool, true, false, ◌&&◌, ◌||◌, Option, none, some, List,
  [], ◌∷◌, ◌++◌, length, take, drop, ltb, leb, ◌==◌, if◌then◌else◌, bit_and, be16, be32, to_be16,
  min,
}
use shadowvpn_ios.Prelude.Outcome.{Outcome, ret, nothing, panic, ◌>>=◌, on_none, index}
use shadowvpn_ios.Text.{split}
use shadowvpn_ios.Text.Utf8.{from_utf8_lossy, to_ascii_lowercase}

abbrev pub header_len : ℕ
header_len = 12

abbrev pub type_a : ℕ
type_a = 1

abbrev pub class_in : ℕ
class_in = 1

-- The loop of `build_query` over the labels; `label.len() as u8` is at most 63.
pub push_labels : List (List ℕ) → List ℕ
push_labels [] = []
push_labels (label ∷ labels) =
    if length label == 0 || ltb 63 (length label)
    then push_labels labels
    else length label ∷ (label ++ push_labels labels)

unfoldable pub build_query : ℕ → List ℕ → List ℕ
unfolding push_labels
build_query id name =
    to_be16 id
    ++ (0x01 ∷ 0x00 ∷ 0x00 ∷ 0x01 ∷ 0 ∷ 0 ∷ 0 ∷ 0 ∷ 0 ∷ 0 ∷ [])
    ++ push_labels (split b'.' name)
    ++ (0 ∷ to_be16 type_a ++ to_be16 class_in)

-- `labels.join(".")`
abbrev pub join : List (List ℕ) → List ℕ
join [] = []
join (l ∷ []) = l
join (l ∷ m ∷ ms) = l ++ (b'.' ∷ join (m ∷ ms))

-- One label of `read_name`.
abbrev pub label_text : List ℕ → List ℕ
label_text bytes = to_ascii_lowercase (from_utf8_lossy bytes)

abbrev pub min_option : Option ℕ → ℕ → Option ℕ
min_option none ttl = some ttl
min_option (some m) ttl = some (min m ttl)

abbrev pub from_option : Option ℕ → Outcome ℕ
from_option none = nothing
from_option (some m) = ret m

module _ (msg : List ℕ) where
  -- `msg[s..e]`
  abbrev pub slice : ℕ → ℕ → List ℕ
  slice s e = take (e - s) (drop s msg)

  -- The loop of `read_name`: `budget` rounds are left, and `labels` have been read.
  pub read_loop : ℕ → ℕ → Bool → ℕ → List (List ℕ) → Outcome (List (List ℕ) × ℕ)
  read_loop zero pos jumped after_ptr labels = nothing
  read_loop (suc budget) pos jumped after_ptr labels = if leb (length msg) pos then nothing else do
    len ← index msg pos
    let e = pos + 1 + len
    let next = read_loop budget e jumped after_ptr (labels ++ (label_text (slice (pos + 1) e) ∷ []))
    let follow = λ (low : ℕ).
        let ptr = bit_and len 0x3F * 256 + low in
        let rest = read_loop budget ptr true (if jumped then after_ptr else pos + 2) labels in
        if leb (length msg) ptr then nothing else rest
    let done = if jumped then after_ptr else pos + 1
    if bit_and len 0xC0 == 0
        then (if len == 0 then ret (labels, done) else if ltb (length msg) e then nothing else next)
        else if bit_and len 0xC0 == 0xC0
        then (if leb (length msg) (pos + 1) then nothing else index msg (pos + 1) >>= follow)
        else nothing

  pub read_name : ℕ → Outcome (List ℕ × ℕ)
  read_name start = do
    (labels, after_ptr) ← read_loop (length msg) start false start []
    ret (join labels, after_ptr)

  -- The loop of `skip_name`. It has no budget in the source; here the fuel bounds it, and running out
  -- of fuel inside the message would be `panic` too.
  pub skip_loop : ℕ → ℕ → Outcome ℕ
  skip_loop zero pos = if leb (length msg) pos then nothing else panic
  skip_loop (suc fuel) pos = if leb (length msg) pos then nothing else do
    len ← index msg pos
    let next = skip_loop fuel (pos + 1 + len)
    if bit_and len 0xC0 == 0
        then (if len == 0 then ret (pos + 1) else next)
        else if bit_and len 0xC0 == 0xC0
        then (if ltb (pos + 1) (length msg) then ret (pos + 2) else nothing)
        else nothing

  unfoldable pub skip_name : ℕ → Outcome ℕ
  unfolding skip_loop
  skip_name start = skip_loop (length msg) start

  -- `u16::from_be_bytes([msg[i], msg[i + 1]])`
  pub read_u16 : ℕ → Outcome ℕ
  read_u16 i = do hi ← index msg i; lo ← index msg (i + 1); ret (be16 hi lo)

  pub question_name : Outcome (List ℕ)
  question_name = if ltb (length msg) header_len then nothing else do
    qdcount ← read_u16 4
    if qdcount == 0 then nothing else do (name, _) ← read_name header_len; ret name

  unfoldable pub question : Outcome (List ℕ × ℕ × ℕ)
  question = if ltb (length msg) header_len then nothing else do
    qdcount ← read_u16 4
    if qdcount == 0 then nothing else do
      (name, pos) ← read_name header_len
      if ltb (length msg) (pos + 4)
          then nothing
          else do qtype ← read_u16 pos; qclass ← read_u16 (pos + 2); ret (name, qtype, qclass)

  -- The question section, as `min_ttl` and `a_records` step over it.
  pub skip_questions : ℕ → ℕ → Outcome ℕ
  skip_questions zero pos = ret pos
  skip_questions (suc count) pos = do
    next ← skip_name pos
    let rest = skip_questions count (next + 4)
    if ltb (length msg) (next + 4) then nothing else rest

  pub ttl_loop : ℕ → ℕ → Option ℕ → Outcome ℕ
  ttl_loop zero pos least = from_option least
  ttl_loop (suc count) pos least = do
    next ← skip_name pos
    if ltb (length msg) (next + 10) then from_option least else do
      high ← read_u16 (next + 4)
      low ← read_u16 (next + 6)
      rdlength ← read_u16 (next + 8)
      ttl_loop count (next + 10 + rdlength) (min_option least (high * 2 ^ 16 + low))

  pub min_ttl : Outcome ℕ
  min_ttl = if ltb (length msg) header_len then nothing else do
    qdcount ← read_u16 4
    ancount ← read_u16 6
    pos ← skip_questions qdcount header_len
    ttl_loop ancount pos none

  -- The answer loop of `a_records`; a malformed record ends it with what was found so far.
  pub a_loop : ℕ → ℕ → List ℕ → Outcome (List ℕ)
  a_loop zero pos out = ret out
  a_loop (suc count) pos out = on_none (skip_name pos) (ret out) λ next.
      if ltb (length msg) (next + 10) then ret out else do
        rtype ← read_u16 next
        rclass ← read_u16 (next + 2)
        rdlength ← read_u16 (next + 8)
        let data_pos = next + 10
        let skip = a_loop count (data_pos + rdlength) out
        let take_record = do
          high ← read_u16 data_pos
          low ← read_u16 (data_pos + 2)
          a_loop count (data_pos + rdlength) (out ++ ((high * 2 ^ 16 + low) ∷ []))
        if ltb (length msg) (data_pos + rdlength)
            then ret out
            else if rtype == type_a && rclass == class_in && rdlength == 4
            then take_record
            else skip

  unfoldable pub a_records : Outcome (List ℕ)
  a_records = if ltb (length msg) header_len then ret [] else do
    qdcount ← read_u16 4
    ancount ← read_u16 6
    on_none (skip_questions qdcount header_len) (ret []) λ pos. a_loop ancount pos []
