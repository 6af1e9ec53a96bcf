-- ===== src/Dns/Message/Names.antt =====
-- vendor/dns.rs: `skip_name` and the question section on what the wire format prescribes.
use shadowvpn_ios.Prelude.{
  ℕ, zero, suc, ◌+◌, ◌≤◌, ◌<◌, ◌≡◌, refl, ap, ◌∙◌, false, List, [], ◌∷◌, ◌++◌, length, ltb,
  length-append, length-drop, to_be16, append_assoc, All, be16, bit_and, bit_and_c0, arith,
}
use shadowvpn_ios.Prelude.Cursor.{At, At-append, At-lt, index-At}
use shadowvpn_ios.Prelude.Outcome.{ret, index}
use shadowvpn_ios.Dns.{skip_loop, skip_name, skip_questions, read_u16}
use shadowvpn_ios.Dns.Message.{
  NameEnd, root, pointer, Name, end_wire, labels_wire, name_wire, Question, question_wire,
  questions_wire, IsWireLabel, IsNameEnd, IsName,
}

module _ (msg : List ℕ) where
  pub read_u16-At :
      (p hi lo : ℕ) (rest : List ℕ) → At msg p (hi ∷ lo ∷ rest) → read_u16 msg p ≡ ret (be16 hi lo)
  unfolding read_u16
  read_u16-At p hi lo rest h =
      rw
        (
          (index-At msg p hi (lo ∷ rest) h).0,
          (index-At msg (p + 1) lo rest (At-append msg p (p + 1) (hi ∷ []) (lo ∷ rest) h refl)).0,
        )
        refl

  skip_loop-end :
      (fuel pos : ℕ) (ending : NameEnd) (rest : List ℕ)
      → At msg pos (end_wire ending ++ rest)
      → IsNameEnd ending
      → skip_loop msg (suc fuel) pos ≡ ret (pos + length (end_wire ending))
  unfolding skip_loop end_wire IsNameEnd
  skip_loop-end fuel pos root rest h v =
      let inside = At-lt msg pos 0 rest h in
      let e = (index-At msg pos 0 rest h).0 in ground (arith, inside, e)
  skip_loop-end fuel pos (pointer hi lo) rest h (small, _) =
      let inside = At-lt msg pos (0xC0 + hi) (lo ∷ rest) h in
      let e = (index-At msg pos (0xC0 + hi) (lo ∷ rest) h).0 in
      let bits : bit_and (0xC0 + hi) 0xC0 ≡ 0xC0 =
        bit_and_c0 (0xC0 + hi) (omega arith) ∙ omega arith in
      ground (arith, inside, e, bits)

  skip_loop_label :
      (fuel pos n : ℕ)
      → pos < length msg
      → index msg pos ≡ ret n
      → bit_and n 0xC0 ≡ 0
      → 1 ≤ n
      → skip_loop msg (suc fuel) pos ≡ skip_loop msg fuel (pos + 1 + n)
  unfolding skip_loop
  skip_loop_label fuel pos n inside e bits some_bytes = ground arith

  skip_loop-labels :
      (ls : List (List ℕ)) (fuel pos : ℕ) (ending : NameEnd) (rest : List ℕ)
      → At msg pos (labels_wire ls ending ++ rest)
      → All IsWireLabel ls
      → IsNameEnd ending
      → length ls < fuel
      → skip_loop msg fuel pos ≡ ret (pos + length (labels_wire ls ending))
  unfolding labels_wire
  skip_loop-labels ls zero pos ending rest h v w f = absurd (omega arith)
  skip_loop-labels [] (suc fuel) pos ending rest h v w f = skip_loop-end fuel pos ending rest h w
  skip_loop-labels (l ∷ ls) (suc fuel) pos ending rest h (v, vs) w f =
      let n = length l in
      let tail = labels_wire ls ending in
      let inside = At-lt msg pos n ((l ++ tail) ++ rest) h in
      let e = (index-At msg pos n ((l ++ tail) ++ rest) h).0 in
      let bits : bit_and n 0xC0 ≡ 0 = bit_and_c0 n (omega arith) ∙ omega arith in
      let next =
        At-append msg pos (pos + 1 + n) (n ∷ l) (tail ++ rest) (h ∙ append_assoc (n ∷ l) tail rest)
          (omega arith) in
      let ih = skip_loop-labels ls fuel (pos + 1 + n) ending rest next vs w (omega arith) in
      skip_loop_label fuel pos n (omega (arith, inside)) e bits v.0
      ∙ ih
      ∙ ap ret (omega (arith, length-append l tail))

  length-labels_wire :
      (ls : List (List ℕ)) (ending : NameEnd) → length ls < length (labels_wire ls ending)
  unfolding labels_wire end_wire
  length-labels_wire [] root = omega arith
  length-labels_wire [] (pointer hi lo) = omega arith
  length-labels_wire (l ∷ ls) ending =
      omega (arith, length-labels_wire ls ending, length-append l (labels_wire ls ending))

  -- A name is skipped to its end, a pointer included.
  pub skip_name-wire :
      (n : Name) (pos : ℕ) (rest : List ℕ)
      → At msg pos (name_wire n ++ rest)
      → IsName n
      → skip_name msg pos ≡ ret (pos + length (name_wire n))
  unfolding skip_name
  skip_name-wire n pos rest h v =
      skip_loop-labels n.labels (length msg) pos n.ending rest h v.each_label v.end_ok (
        omega (
          arith,
          length-labels_wire n.labels n.ending,
          ap length h,
          length-append (name_wire n) rest,
          length-drop pos msg,
        ))

  length-question_wire : (q : Question) → length (question_wire q) ≡ length (name_wire q.qname) + 4
  unfolding question_wire
  length-question_wire q =
      omega (arith, length-append (name_wire q.qname) (to_be16 q.qtype ++ to_be16 q.qclass))

  -- The question section is skipped.
  pub skip_questions-wire :
      (qs : List Question) (pos : ℕ) (rest : List ℕ)
      → At msg pos (questions_wire qs ++ rest)
      → pos ≤ length msg
      → All (λ q. IsName q.qname) qs
      → skip_questions msg (length qs) pos ≡ ret (pos + length (questions_wire qs))
  unfolding skip_questions questions_wire
  skip_questions-wire [] pos rest h inside v = ap ret (omega arith)
  skip_questions-wire (q ∷ qs) pos rest h inside (v, vs) =
      let more = questions_wire qs ++ rest in
      let here = h ∙ append_assoc (question_wire q) (questions_wire qs) rest in
      let type_class = to_be16 q.qtype ++ to_be16 q.qclass in
      let named = here ∙ append_assoc (name_wire q.qname) type_class more in
      let next = pos + length (name_wire q.qname) in
      let len = length-question_wire q in
      let after = At-append msg pos (next + 4) (question_wire q) more here (omega (arith, len)) in
      let fits : ltb (length msg) (next + 4) ≡ false =
        ground
          (arith, len, ap length here, length-append (question_wire q) more, length-drop pos msg) in
      rw
        (
          skip_name-wire q.qname pos (type_class ++ more) named v,
          fits,
          skip_questions-wire qs (next + 4) rest after (ground arith) vs,
        )
        (ap ret (omega (arith, len, length-append (question_wire q) (questions_wire qs))))
