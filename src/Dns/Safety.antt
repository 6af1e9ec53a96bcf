-- ===== src/Dns/Safety.antt =====
-- vendor/dns.rs: the indexing of the parsers.

use shadowvpn_ios.Prelude.{
  ℕ, zero, suc, ◌+◌, ◌*◌, ◌≤◌, ◌<◌, Bool, true, false, ◌&&◌, Option, none, some, List, [], length,
  ltb, leb, ◌==◌, bit_and, be16, arith,
}
use shadowvpn_ios.Prelude.Outcome.{
  Outcome, ◌>>=◌, index-lt, Safe, ret-Safe, nothing-Safe, if-Safe, index-Safe, bind-Safe,
  on_none-Safe,
}
use shadowvpn_ios.Dns.{
  read_loop, read_name, skip_loop, skip_name, read_u16, question_name, question, skip_questions,
  from_option, ttl_loop, min_ttl, a_loop, a_records, header_len, type_a, class_in,
}

from_option-Safe : (o : Option ℕ) → Safe (from_option o)
from_option-Safe none = nothing-Safe
from_option-Safe (some n) = ret-Safe n

module _ (msg : List ℕ) where
  read_loop-Safe :
      (budget pos : ℕ) (jumped : Bool) (after_ptr : ℕ) (labels : List (List ℕ))
      → Safe (read_loop msg budget pos jumped after_ptr labels)
  unfolding read_loop
  read_loop-Safe zero pos jumped after_ptr labels = nothing-Safe
  read_loop-Safe (suc budget) pos jumped after_ptr labels =
      if-Safe (leb (length msg) pos) (λ _. nothing-Safe)
        λ inside. index-Safe msg pos (ground arith) λ len.
          if-Safe (bit_and len 0xC0 == 0)
            (λ _.
              if-Safe (len == 0) (λ _. ret-Safe _)
                (λ _.
                  if-Safe (ltb (length msg) (pos + 1 + len)) (λ _. nothing-Safe)
                    (λ _. read_loop-Safe budget (pos + 1 + len) jumped after_ptr _)))
            λ _.
              if-Safe (bit_and len 0xC0 == 0xC0)
                (λ _.
                  if-Safe (leb (length msg) (pos + 1)) (λ _. nothing-Safe)
                    λ two. index-Safe msg (pos + 1) (ground arith) λ low.
                      if-Safe (leb (length msg) (bit_and len 0x3F * 256 + low)) (λ _. nothing-Safe)
                        (λ _. read_loop-Safe budget _ true _ labels))
                (λ _. nothing-Safe)

  read_name-Safe : (start : ℕ) → Safe (read_name msg start)
  unfolding read_name
  read_name-Safe start =
      bind-Safe (read_loop msg (length msg) start false start [])
        (read_loop-Safe (length msg) start false start []) (λ (labels, after_ptr) _. ret-Safe _)

  -- The position grows in every round, so the fuel lasts to the end of the message.
  skip_loop-Safe : (fuel pos : ℕ) → length msg ≤ pos + fuel → Safe (skip_loop msg fuel pos)
  unfolding skip_loop
  skip_loop-Safe zero pos h =
      if-Safe (leb (length msg) pos) (λ _. nothing-Safe) (λ e. absurd (ground arith))
  skip_loop-Safe (suc fuel) pos h =
      if-Safe (leb (length msg) pos) (λ _. nothing-Safe)
        λ inside. index-Safe msg pos (ground arith) λ len.
          if-Safe (bit_and len 0xC0 == 0)
            (λ _.
              if-Safe (len == 0) (λ _. ret-Safe _)
                (λ _. skip_loop-Safe fuel (pos + 1 + len) (omega arith)))
            (λ _.
              if-Safe (bit_and len 0xC0 == 0xC0)
                (λ _. if-Safe (ltb (pos + 1) (length msg)) (λ _. ret-Safe _) (λ _. nothing-Safe))
                (λ _. nothing-Safe))

  skip_name-Safe : (start : ℕ) → Safe (skip_name msg start)
  unfolding skip_name
  skip_name-Safe start = skip_loop-Safe (length msg) start (omega arith)

  read_u16-Safe {ℓ} :
      {A : Type ℓ} (i : ℕ) {f : ℕ → Outcome A}
      → i + 1 < length msg
      → ((n : ℕ) → Safe (f n))
      → Safe (read_u16 msg i >>= f)
  unfolding read_u16
  read_u16-Safe i {f} h k =
      let (hi, p) = index-lt msg i (omega arith) in
      let (lo, q) = index-lt msg (i + 1) h in rw (p, q) (k (be16 hi lo))

  skip_questions-Safe : (count pos : ℕ) → Safe (skip_questions msg count pos)
  unfolding skip_questions
  skip_questions-Safe zero pos = ret-Safe pos
  skip_questions-Safe (suc count) pos = bind-Safe (skip_name msg pos) (skip_name-Safe pos) λ next _.
      if-Safe (ltb (length msg) (next + 4)) (λ _. nothing-Safe)
        (λ _. skip_questions-Safe count (next + 4))

  ttl_loop-Safe : (count pos : ℕ) (least : Option ℕ) → Safe (ttl_loop msg count pos least)
  unfolding ttl_loop
  ttl_loop-Safe zero pos least = from_option-Safe least
  ttl_loop-Safe (suc count) pos least = bind-Safe (skip_name msg pos) (skip_name-Safe pos) λ next _.
      if-Safe (ltb (length msg) (next + 10)) (λ _. from_option-Safe least)
        λ fits. read_u16-Safe (next + 4) (ground arith) λ high.
          read_u16-Safe (next + 6) (ground arith) λ low.
            read_u16-Safe (next + 8) (ground arith)
              λ rdlength. ttl_loop-Safe count (next + 10 + rdlength) _

  a_loop-Safe : (count pos : ℕ) (out : List ℕ) → Safe (a_loop msg count pos out)
  unfolding a_loop
  a_loop-Safe zero pos out = ret-Safe out
  a_loop-Safe (suc count) pos out =
      on_none-Safe (skip_name msg pos) (skip_name-Safe pos) (ret-Safe out) λ next.
        if-Safe (ltb (length msg) (next + 10)) (λ _. ret-Safe out)
          λ fits. read_u16-Safe next (ground arith) λ rtype.
            read_u16-Safe (next + 2) (ground arith) λ rclass.
              read_u16-Safe (next + 8) (ground arith) λ rdlength.
                let after = next + 10 + rdlength in
                if-Safe (ltb (length msg) after) (λ _. ret-Safe out)
                  λ whole.
                    if-Safe (rtype == type_a && rclass == class_in && rdlength == 4)
                      (λ four. read_u16-Safe (next + 10) (ground arith) λ high.
                        read_u16-Safe (next + 10 + 2) (ground arith)
                          λ low. a_loop-Safe count after _)
                      (λ _. a_loop-Safe count after out)

  question_name-Safe : Safe (question_name msg)
  unfolding question_name
  question_name-Safe =
      if-Safe (ltb (length msg) header_len) (λ _. nothing-Safe)
        λ long. read_u16-Safe 4 (ground arith) λ qdcount.
          if-Safe (qdcount == 0) (λ _. nothing-Safe)
            (λ _.
              bind-Safe (read_name msg header_len) (read_name-Safe header_len)
                (λ (name, pos) _. ret-Safe name))

  question-Safe : Safe (question msg)
  unfolding question
  question-Safe =
      if-Safe (ltb (length msg) header_len) (λ _. nothing-Safe)
        λ long. read_u16-Safe 4 (ground arith) λ qdcount.
          if-Safe (qdcount == 0) (λ _. nothing-Safe)
            (λ _. bind-Safe (read_name msg header_len) (read_name-Safe header_len) λ (name, pos) _.
              if-Safe (ltb (length msg) (pos + 4)) (λ _. nothing-Safe)
                λ fits. read_u16-Safe pos (ground arith) λ qtype.
                  read_u16-Safe (pos + 2) (ground arith) λ qclass. ret-Safe (name, qtype, qclass))

  min_ttl-Safe : Safe (min_ttl msg)
  unfolding min_ttl
  min_ttl-Safe =
      if-Safe (ltb (length msg) header_len) (λ _. nothing-Safe)
        λ long. read_u16-Safe 4 (ground arith) λ qdcount. read_u16-Safe 6 (ground arith) λ ancount.
          bind-Safe (skip_questions msg qdcount header_len) (skip_questions-Safe qdcount header_len)
            (λ pos _. ttl_loop-Safe ancount pos none)

  a_records-Safe : Safe (a_records msg)
  unfolding a_records
  a_records-Safe =
      if-Safe (ltb (length msg) header_len) (λ _. ret-Safe _)
        λ long. read_u16-Safe 4 (ground arith) λ qdcount. read_u16-Safe 6 (ground arith) λ ancount.
          on_none-Safe (skip_questions msg qdcount header_len)
            (skip_questions-Safe qdcount header_len) (ret-Safe _)
            (λ pos. a_loop-Safe ancount pos [])

  -- No byte string makes `question_name`, `question`, `min_ttl` or `a_records` index outside the
  -- message.
  pub parsers-Safe :
      Safe (question_name msg) × Safe (question msg) × Safe (min_ttl msg) × Safe (a_records msg)
  parsers-Safe = (question_name-Safe, question-Safe, min_ttl-Safe, a_records-Safe)
