-- ===== src/Dns/Message/Fixtures.antt =====
-- The builders of the unit tests of vendor/dns.rs, dns_intercept.rs and inspect.rs: a query for a name,
-- and a response with A records whose owner is a pointer to the question.
use shadowvpn_ios.Prelude.{
  ℕ, suc, ◌/◌, ◌%◌, ◌^◌, ◌<◌, ◌≡◌, refl, sym, ap, ◌∙◌, List, [], ◌∷◌, ◌++◌, length, set, ltb, map,
  append-nil, append_assoc, All, be32, to_be16, arith, if◌then◌else◌,
}
use shadowvpn_ios.Prelude.Outcome.{Outcome, ret, panic, ◌>>=◌}
use shadowvpn_ios.Text.{split}
use shadowvpn_ios.Dns.{push_labels, build_query, join, a_records, type_a, class_in}
use shadowvpn_ios.Dns.Labels.{IsLabel, split-join}
use shadowvpn_ios.Dns.Message.{
  end_wire, questions_wire, question_wire, header_wire, record_wire, root, pointer, Answer, Message,
  IsMessage, IsAnswer, message_wire, IsNameEnd, IsWireLabel, address, four_bytes, addresses,
  to_be32, labels_wire, answers_wire,
}
use shadowvpn_ios.Dns.Message.Answers.{a_records-message}

-- `label.len() as u8`
pub push_each : List (List ℕ) → List ℕ
push_each [] = []
push_each (label ∷ labels) = (length label % 256) ∷ (label ++ push_each labels)

-- `dns_query(id, name)`; `query` of dns.rs has the id 0x1234, the one of inspect.rs has 0.
unfoldable pub dns_query : ℕ → List ℕ → List ℕ
unfolding push_each
dns_query id name =
    to_be16 id
    ++ (0x01 ∷ 0x00 ∷ 0x00 ∷ 0x01 ∷ 0 ∷ 0 ∷ 0 ∷ 0 ∷ 0 ∷ 0 ∷ [])
    ++ push_each (split b'.' name)
    ++ (0 ∷ to_be16 type_a ++ to_be16 class_in)

unfoldable pub query : List ℕ → List ℕ
query name = dns_query 0x1234 name

push_each-labels : (ls : List (List ℕ)) → All IsLabel ls → push_each ls ≡ push_labels ls
unfolding push_each push_labels
push_each-labels [] h = refl
push_each-labels (l ∷ ls) (v, h) = ground (arith, v.some_bytes, v.short, push_each-labels ls h)

-- For allowed labels the tests' builder writes what `build_query` writes.
pub dns_query-build_query :
    (id : ℕ) (l : List ℕ) (ls : List (List ℕ))
    → All IsLabel (l ∷ ls)
    → dns_query id (join (l ∷ ls)) ≡ build_query id (join (l ∷ ls))
unfolding dns_query build_query
dns_query-build_query id l ls h =
    let name = join (l ∷ ls) in
    let e : push_each (split b'.' name) ≡ push_labels (split b'.' name) =
      ap push_each (split-join l ls h)
      ∙ push_each-labels (l ∷ ls) h
      ∙ ap push_labels (sym (split-join l ls h)) in
    rw e refl

-- An address and a lifetime.
pub record Pair : Type 0 where
  pub a : ℕ
  pub b : ℕ
  pub c : ℕ
  pub d : ℕ
  pub ttl : ℕ

-- The loop of `response_with`.
pub push_records : List Pair → List ℕ
push_records [] = []
push_records (r ∷ rs) =
    0xC0
    ∷ 0x0C
    ∷ (to_be16 type_a
        ++ (to_be16 class_in
            ++ (to_be32 r.ttl ++ (to_be16 4 ++ (r.a ∷ r.b ∷ r.c ∷ r.d ∷ push_records rs)))))

-- The writes `m[2]`, `m[3]`, `m[6]` and `m[7]` panic on a shorter query.
unfoldable pub response_with : List ℕ → List Pair → Outcome (List ℕ)
unfolding push_records
response_with q records =
    let n = length records in
    if ltb (length q) 8
    then panic
    else ret (
        set (set (set (set q 2 0x81) 3 0x80) 6 (n / 2 ^ 8 % 256)) 7 (n % 256)
        ++ push_records records)

abbrev answer_of : Pair → Answer
answer_of r = record {
  owner = record { labels = []; ending = pointer 0 12 };
  rtype = type_a;
  rclass = class_in;
  ttl = r.ttl;
  rdata = r.a ∷ r.b ∷ r.c ∷ r.d ∷ [];
}

-- The response as a message.
abbrev response_message : List (List ℕ) → List Pair → Message
response_message ls records = record {
  id = 0x1234;
  flags = 0x8180;
  questions =
      record { qname = record { labels = ls; ending = root }; qtype = type_a; qclass = class_in }
      ∷ [];
  answers = map answer_of records;
  authorities = 0;
  additionals = 0;
}

push_each-wire :
    (ls : List (List ℕ)) (rest : List ℕ)
    → All IsLabel ls
    → push_each ls ++ (0 ∷ rest) ≡ labels_wire ls root ++ rest
unfolding push_each labels_wire end_wire
push_each-wire [] rest h = refl
push_each-wire (l ∷ ls) rest (v, h) =
    let small : length l % 256 ≡ length l = omega (arith, v.short) in
    rw (small, append_assoc l (push_each ls) (0 ∷ rest), push_each-wire ls rest h)
      (ap (◌∷◌ (length l)) (sym (append_assoc l (labels_wire ls root) rest)))

push_records-wire : (rs : List Pair) → push_records rs ≡ answers_wire (map answer_of rs)
unfolding push_records answers_wire record_wire labels_wire end_wire
push_records-wire [] = refl
push_records-wire (r ∷ rs) = rw (push_records-wire rs) refl

length-map : (rs : List Pair) → length (map answer_of rs) ≡ length rs
length-map [] = refl
length-map (r ∷ rs) = ap suc (length-map rs)

-- The bytes behind the header.
body-wire :
    (l : List ℕ) (ls : List (List ℕ)) (records : List Pair)
    → All IsLabel (l ∷ ls)
    → (push_each (l ∷ ls) ++ (0 ∷ 0 ∷ 1 ∷ 0 ∷ 1 ∷ [])) ++ push_records records
      ≡ questions_wire (response_message (l ∷ ls) records).questions
        ++ answers_wire (map answer_of records)
unfolding questions_wire question_wire
body-wire l ls records h =
    let name = labels_wire (l ∷ ls) root in
    let found = answers_wire (map answer_of records) in
    append_assoc (push_each (l ∷ ls)) (0 ∷ 0 ∷ 1 ∷ 0 ∷ 1 ∷ []) (push_records records)
    ∙ push_each-wire (l ∷ ls) (0 ∷ 1 ∷ 0 ∷ 1 ∷ push_records records) h
    ∙ ap (λ (x : List ℕ). name ++ (0 ∷ 1 ∷ 0 ∷ 1 ∷ x)) (push_records-wire records)
    ∙ sym (append_assoc name (0 ∷ 1 ∷ 0 ∷ 1 ∷ []) found)
    ∙ ap (λ (x : List ℕ). x ++ found) (sym (append-nil (name ++ (0 ∷ 1 ∷ 0 ∷ 1 ∷ []))))

-- What the builder writes is a message in the wire format.
response_with-message :
    (l : List ℕ) (ls : List (List ℕ)) (records : List Pair)
    → All IsLabel (l ∷ ls)
    → response_with (query (join (l ∷ ls))) records
      ≡ ret (message_wire (response_message (l ∷ ls) records))
unfolding response_with query dns_query message_wire header_wire
response_with-message l ls records h =
    let n = length records in
    let front = λ (x : List ℕ).
      0x12 ∷ 0x34 ∷ 0x81 ∷ 0x80 ∷ 0 ∷ 1 ∷ (n / 256 % 256) ∷ (n % 256) ∷ 0 ∷ 0 ∷ 0 ∷ 0 ∷ x in
    rw (split-join l ls h, length-map records) (ground (arith, ap front (body-wire l ls records h)))

pub record IsPair (r : Pair) : Type 0 where
  pub ttl_ok : r.ttl < 2 ^ 32

answers-IsAnswer : (rs : List Pair) → All IsPair rs → All IsAnswer (map answer_of rs)
unfolding IsNameEnd
answers-IsAnswer [] h = tt
answers-IsAnswer (r ∷ rs) (v, h) = (
  record {
    owner_ok = record { each_label = tt; end_ok = (omega arith, omega arith) };
    rtype_ok = omega arith;
    rclass_ok = omega arith;
    ttl_ok = v.ttl_ok;
    rdata_ok = omega arith;
  },
  answers-IsAnswer rs h,
)

labels-IsWireLabel : (ls : List (List ℕ)) → All IsLabel ls → All IsWireLabel ls
labels-IsWireLabel [] h = tt
labels-IsWireLabel (l ∷ ls) (v, h) = ((v.some_bytes, v.short), labels-IsWireLabel ls h)

abbrev pub ip_of : Pair → ℕ
ip_of r = be32 r.a r.b r.c r.d

addresses-answers : (rs : List Pair) → addresses (map answer_of rs) ≡ map ip_of rs
unfolding addresses address four_bytes
addresses-answers [] = refl
addresses-answers (r ∷ rs) = ap (◌∷◌ (ip_of r)) (addresses-answers rs)

-- In a response that the tests' builder makes for a query of allowed labels, whose owners are pointers
-- to the question, `a_records` finds the addresses of all records in their order.
a_records-response_with :
    (l : List ℕ) (ls : List (List ℕ)) (records : List Pair)
    → All IsLabel (l ∷ ls)
    → All IsPair records
    → length records < 65536
    → (response_with (query (join (l ∷ ls))) records >>= a_records) ≡ ret (map ip_of records)
a_records-response_with l ls records h pairs few =
    let m = response_message (l ∷ ls) records in
    let valid : IsMessage m = record {
      question_count = omega arith;
      answer_count = omega (arith, length-map records);
      each_question = (
        record { each_label = labels-IsWireLabel (l ∷ ls) h; end_ok = unfold IsNameEnd in tt },
        tt,
      );
      each_answer = answers-IsAnswer records pairs;
    } in
    rw (response_with-message l ls records h) (
      ap a_records (sym (append-nil (message_wire m)))
      ∙ a_records-message m [] valid
      ∙ ap ret (addresses-answers records))
