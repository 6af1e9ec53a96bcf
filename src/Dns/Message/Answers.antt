-- ===== src/Dns/Message/Answers.antt =====
-- vendor/dns.rs: `a_records` and `min_ttl` on messages that keep to the wire format.
use shadowvpn_ios.Prelude.{
  ℕ, ◌+◌, ◌%◌, ◌^◌, ◌≤◌, ◌<◌, ◌≡◌, ◌⊎◌, refl, sym, ap, ◌∙◌, false, none, some, List, [], ◌∷◌, ◌++◌,
  length, min, ltb, leb, drop, append_assoc, All, Any, arith, inl, inr, Bool-cases,
}
use shadowvpn_ios.Prelude.Cursor.{At, At-append}
use shadowvpn_ios.Prelude.Outcome.{Outcome, ret}
use shadowvpn_ios.Dns.{read_u16, skip_questions, a_records, min_ttl, from_option}
use shadowvpn_ios.Dns.Message.{
  Answer, answers_wire, questions_wire, Message, header_wire, message_wire, IsMessage, addresses,
}
use shadowvpn_ios.Dns.Message.Names.{skip_questions-wire}
use shadowvpn_ios.Dns.Message.Records.{read_field, a_loop-answers, least, ttl_loop-answers}

small_count : (n : ℕ) → n < 65536 → n % 2 ^ 16 ≡ n
small_count n h = omega arith

-- What the two functions read before their loops.
record IsHead (m : Message) (msg rest : List ℕ) : Type 0 where
  long : ltb (length msg) 12 ≡ false
  qdcount : read_u16 msg 4 ≡ ret (length m.questions)
  ancount : read_u16 msg 6 ≡ ret (length m.answers)
  skipped :
      skip_questions msg (length m.questions) 12 ≡ ret (12 + length (questions_wire m.questions))
  answers_at : At msg (12 + length (questions_wire m.questions)) (answers_wire m.answers ++ rest)

is_head : (m : Message) (rest : List ℕ) → IsMessage m → IsHead m (message_wire m ++ rest) rest
unfolding message_wire header_wire
is_head m rest v =
    let msg = message_wire m ++ rest in
    let qs = questions_wire m.questions in
    let rs = answers_wire m.answers in
    let sections = ap (drop 12) {x = msg} refl ∙ append_assoc qs rs rest in
    let count = λ (n : ℕ) (h : n < 65536). ap {B = Outcome ℕ} ret (small_count n h) in
    record {
      long = ground arith;
      qdcount = read_field msg 4 (length m.questions) _ refl ∙ count _ v.question_count;
      ancount = read_field msg 6 (length m.answers) _ refl ∙ count _ v.answer_count;
      skipped =
          skip_questions-wire msg m.questions 12 (rs ++ rest) sections (omega arith)
            v.each_question;
      answers_at = At-append msg 12 (12 + length qs) qs (rs ++ rest) sections refl;
    }

-- For a message that keeps to the wire format, with any further sections behind it, `a_records` returns
-- the addresses of its A records of class IN in their order, whatever other records stand between them.
pub a_records-message :
    (m : Message) (rest : List ℕ)
    → IsMessage m
    → a_records (message_wire m ++ rest) ≡ ret (addresses m.answers)
unfolding a_records
a_records-message m rest v =
    let msg = message_wire m ++ rest in
    let h = is_head m rest v in
    rw (h.long, h.qdcount, h.ancount, h.skipped)
      (a_loop-answers m.answers msg (12 + length (questions_wire m.questions)) [] rest h.answers_at
        v.each_answer)

least_lem :
    (rs : List Answer) (m : ℕ)
    → (t : ℕ) × (least rs (some m) ≡ some t)
      × (t ≤ m)
      × All (λ r. t ≤ r.ttl) rs
      × ((t ≡ m) ⊎ Any (λ r. r.ttl ≡ t) rs)
least_lem [] m = (m, refl, omega arith, tt, inl refl)
least_lem (a ∷ rs) m =
    let (t, e, below, all, any) = least_lem rs (min m a.ttl) in
    (
      t,
      e,
      omega arith,
      (omega arith, all),
      elim any [
        | inl here ↦ elim (Bool-cases (leb m a.ttl)) [
          | inl lower ↦ inl (ground arith)
          | inr above ↦ inr (inl (ground arith))
        ]
        | inr later ↦ inr (inr later)
      ],
    )

-- For such a message with an answer, `min_ttl` returns the least lifetime of its records.
pub min_ttl-message :
    (m : Message) (a : Answer) (rs : List Answer) (rest : List ℕ)
    → m.answers ≡ a ∷ rs
    → IsMessage m
    → (t : ℕ) × (min_ttl (message_wire m ++ rest) ≡ ret t)
      × Any (λ r. r.ttl ≡ t) (a ∷ rs)
      × All (λ r. t ≤ r.ttl) (a ∷ rs)
unfolding min_ttl
min_ttl-message m a rs rest e v =
    let msg = message_wire m ++ rest in
    let h = is_head m rest v in
    let (t, found, below, all, any) = least_lem rs a.ttl in
    let loop =
      ttl_loop-answers m.answers msg (12 + length (questions_wire m.questions)) none rest
        h.answers_at v.each_answer
      ∙ ap (λ l. from_option (least l none)) e
      ∙ ap from_option found in
    (
      t,
      rw (h.long, h.qdcount, h.ancount, h.skipped) loop,
      elim any [ inl here ↦ inl (sym here) | inr later ↦ inr later ],
      (below, all),
    )
