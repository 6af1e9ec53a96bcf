-- ===== src/Dns/RoundTrip.antt =====
-- vendor/dns.rs: `question` on what `build_query` wrote.
use shadowvpn_ios.Prelude.{
  ℕ, zero, suc, ◌+◌, ◌-◌, ◌≤◌, ◌<◌, ◌≡◌, refl, sym, ap, ap₂, ◌∙◌, false, List, [], ◌∷◌, ◌++◌, map,
  append_assoc, append-nil, length, be16, to_be16, All, arith, length-append, drop-append,
  take-append, bit_and_c0,
}
use mathlib.Core.List.{map-append}
use shadowvpn_ios.Prelude.Outcome.{ret, index}
use shadowvpn_ios.Text.Utf8.{IsAscii, from_utf8_lossy_ascii, to_ascii_lowercase, to_lower}
use shadowvpn_ios.Dns.{
  push_labels, build_query, join, label_text, slice, read_loop, read_name, read_u16, question,
  header_len, type_a, class_in,
}
use shadowvpn_ios.Dns.Labels.{IsLabel, wire, split-join, push_labels-wire}

-- The byte behind a prefix.
index-append :
    (front : List ℕ) (b : ℕ) (back : List ℕ) (i : ℕ)
    → i ≡ length front
    → index (front ++ (b ∷ back)) i ≡ ret b
unfolding index
index-append [] b back zero h = refl
index-append [] b back (suc i) h = absurd (omega arith)
index-append (x ∷ front) b back zero h = absurd (omega arith)
index-append (x ∷ front) b back (suc i) h = index-append front b back i (omega arith)

module _ (msg : List ℕ) (budget pos after_ptr : ℕ) (acc : List (List ℕ)) where
  read_loop_root :
      pos < length msg
      → index msg pos ≡ ret 0
      → read_loop msg (suc budget) pos false after_ptr acc ≡ ret (acc, pos + 1)
  unfolding read_loop
  read_loop_root p e = ground arith

  read_loop_label :
      (len : ℕ)
      → pos < length msg
      → index msg pos ≡ ret len
      → 1 ≤ len
      → len ≤ 63
      → pos + 1 + len ≤ length msg
      → read_loop msg (suc budget) pos false after_ptr acc
        ≡ read_loop msg budget
            (pos + 1 + len)
            false
            after_ptr
            (acc ++ (label_text (slice msg (pos + 1) (pos + 1 + len)) ∷ []))
  unfolding read_loop
  read_loop_label len p e lo hi fits = ground (arith, bit_and_c0 len (omega arith))

-- The bytes between a prefix and a rest.
slice-append :
    (front l rest : List ℕ) (s e : ℕ)
    → s ≡ length front
    → e ≡ s + length l
    → slice (front ++ (l ++ rest)) s e ≡ l
slice-append front l rest s e hs he =
    rw (drop-append s front (l ++ rest) hs) (take-append (e - s) l rest (omega arith))

label_text-ascii : (l : List ℕ) → All IsAscii l → label_text l ≡ to_ascii_lowercase l
label_text-ascii l h = ap to_ascii_lowercase (from_utf8_lossy_ascii l h)

-- The loop reads the labels that stand on the wire, lower-cased, and stops behind the root label.
read_loop-wire :
    (ls : List (List ℕ)) (msg front tail : List ℕ) (budget pos after_ptr : ℕ) (acc : List (List ℕ))
    → All IsLabel ls
    → length ls < budget
    → pos ≡ length front
    → msg ≡ front ++ (wire ls ++ tail)
    → read_loop msg budget pos false after_ptr acc
      ≡ ret (acc ++ map to_ascii_lowercase ls, pos + length (wire ls))
read_loop-wire ls msg front tail zero pos after_ptr acc h b p e = absurd (omega arith)
read_loop-wire [] msg front tail (suc budget) pos after_ptr acc h b p e = rw (append-nil) (
    read_loop_root msg budget pos after_ptr acc
      (omega (arith, ap length e, length-append front (0 ∷ tail)))
      (ap (λ m. index m pos) e ∙ index-append front 0 tail pos p))
read_loop-wire (l ∷ ls) msg front tail (suc budget) pos after_ptr acc (h, hs) b p e =
    let n = length l in
    let head : List ℕ = n ∷ [] in
    let rest = wire ls ++ tail in
    let e' : msg ≡ (front ++ head) ++ (l ++ rest) =
      e
      ∙ ap (λ (x : List ℕ). front ++ (n ∷ x)) (append_assoc l (wire ls) tail)
      ∙ sym (append_assoc front head (l ++ rest)) in
    let e'' : msg ≡ (front ++ (n ∷ l)) ++ rest =
      e' ∙ append_assoc front head (l ++ rest) ∙ sym (append_assoc front (n ∷ l) rest) in
    let size : length msg ≡ length front + 1 + n + length rest =
      omega (
        arith,
        ap length e'',
        length-append (front ++ (n ∷ l)) rest,
        length-append front (n ∷ l),
      ) in
    let cut : slice msg (pos + 1) (pos + 1 + n) ≡ l =
      ap (λ m. slice m (pos + 1) (pos + 1 + n)) e'
      ∙ slice-append (front ++ head) l rest (pos + 1) (pos + 1 + n)
          (omega (arith, length-append front head)) (omega arith) in
    let text : label_text (slice msg (pos + 1) (pos + 1 + n)) ≡ to_ascii_lowercase l =
      ap label_text cut ∙ label_text-ascii l h.ascii in
    read_loop_label msg budget pos after_ptr acc n (omega (arith, h.some_bytes))
      (ap (λ m. index m pos) e ∙ index-append front n ((l ++ wire ls) ++ tail) pos p) h.some_bytes
      h.short (omega arith)
    ∙ ap (λ t. read_loop msg budget (pos + 1 + n) false after_ptr (acc ++ (t ∷ []))) text
    ∙ read_loop-wire ls msg (front ++ (n ∷ l)) tail budget (pos + 1 + n) after_ptr
        (acc ++ (to_ascii_lowercase l ∷ [])) hs (omega arith)
        (omega (arith, length-append front (n ∷ l))) e''
    ∙ ap₂ (λ (x : List (List ℕ)) (y : ℕ). ret (x, y))
        (append_assoc acc (to_ascii_lowercase l ∷ []) (map to_ascii_lowercase ls))
        (omega (arith, length-append l (wire ls)))

map_lower-join :
    (ls : List (List ℕ)) → to_ascii_lowercase (join ls) ≡ join (map to_ascii_lowercase ls)
map_lower-join [] = refl
map_lower-join (l ∷ []) = refl
map_lower-join (l ∷ m ∷ ms) =
    map-append to_lower l (b'.' ∷ join (m ∷ ms))
    ∙ ap (λ (t : List ℕ). to_ascii_lowercase l ++ (b'.' ∷ t)) (map_lower-join (m ∷ ms))

-- The header of a query, and what follows its name.
abbrev query_header : ℕ → List ℕ
query_header id = to_be16 id ++ (1 ∷ 0 ∷ 0 ∷ 1 ∷ 0 ∷ 0 ∷ 0 ∷ 0 ∷ 0 ∷ 0 ∷ [])

abbrev query_tail : List ℕ
query_tail = 0 ∷ 1 ∷ 0 ∷ 1 ∷ []

build_query-wire :
    (id : ℕ) (l : List ℕ) (ls : List (List ℕ))
    → All IsLabel (l ∷ ls)
    → build_query id (join (l ∷ ls)) ≡ query_header id ++ (wire (l ∷ ls) ++ query_tail)
unfolding build_query
build_query-wire id l ls h =
    ap (λ (x : List ℕ). query_header id ++ x)
      (ap (λ (x : List (List ℕ)). push_labels x ++ (0 ∷ query_tail)) (split-join l ls h)
        ∙ sym (append_assoc (push_labels (l ∷ ls)) (0 ∷ []) query_tail)
        ∙ ap (λ (x : List ℕ). x ++ query_tail) (push_labels-wire (l ∷ ls) h))

read_u16-append :
    (front : List ℕ) (a b : ℕ) (back : List ℕ) (i : ℕ)
    → i ≡ length front
    → read_u16 (front ++ (a ∷ b ∷ back)) i ≡ ret (be16 a b)
unfolding read_u16
read_u16-append front a b back i h = rw (index-append front a (b ∷ back) i h) (
    rw (sym (append_assoc front (a ∷ []) (b ∷ back))) (
      rw (
        index-append (front ++ (a ∷ [])) b back (i + 1)
          (omega (arith, length-append front (a ∷ []))))))

module _ (msg : List ℕ) (name : List ℕ) (pos qtype qclass : ℕ) where
  question_of :
      header_len ≤ length msg
      → read_u16 msg 4 ≡ ret 1
      → read_name msg header_len ≡ ret (name, pos)
      → pos + 4 ≤ length msg
      → read_u16 msg pos ≡ ret qtype
      → read_u16 msg (pos + 2) ≡ ret qclass
      → question msg ≡ ret (name, qtype, qclass)
  unfolding question
  question_of long one named fits t c = ground arith

length-wire : (ls : List (List ℕ)) → length ls < length (wire ls)
length-wire [] = omega arith
length-wire (l ∷ ls) = omega (arith, length-wire ls, length-append l (wire ls))

-- The name of a query on the wire.
read_name-wire :
    (id : ℕ) (ls : List (List ℕ))
    → All IsLabel ls
    → read_name (query_header id ++ (wire ls ++ query_tail)) header_len
      ≡ ret (join (map to_ascii_lowercase ls), 12 + length (wire ls))
unfolding read_name
read_name-wire id ls h =
    let msg = query_header id ++ (wire ls ++ query_tail) in
    rw (
      read_loop-wire ls msg (query_header id) query_tail (length msg) 12 12 [] h
        (omega (arith, length-wire ls, length-append (wire ls) query_tail)) refl refl)

-- The query that `build_query` makes for a name of one or more allowed labels parses back to that
-- name in lower case, with type A and class IN.
pub question-build_query :
    (id : ℕ) (l : List ℕ) (ls : List (List ℕ))
    → All IsLabel (l ∷ ls)
    → question (build_query id (join (l ∷ ls)))
      ≡ ret (to_ascii_lowercase (join (l ∷ ls)), type_a, class_in)
question-build_query id l ls h =
    let w = wire (l ∷ ls) in
    let msg = query_header id ++ (w ++ query_tail) in
    let front = query_header id ++ w in
    let n = length w in
    let e : msg ≡ front ++ query_tail = sym (append_assoc (query_header id) w query_tail) in
    let e' : msg ≡ (front ++ (0 ∷ 1 ∷ [])) ++ (0 ∷ 1 ∷ []) =
      e ∙ sym (append_assoc front (0 ∷ 1 ∷ []) (0 ∷ 1 ∷ [])) in
    ap question (build_query-wire id l ls h)
    ∙ question_of msg (join (map to_ascii_lowercase (l ∷ ls))) (12 + n) type_a class_in
        (omega (arith, length-append w query_tail)) (unfold read_u16 index in refl)
        (read_name-wire id (l ∷ ls) h) (omega (arith, length-append w query_tail))
        (ap (λ m. read_u16 m (12 + n)) e
          ∙ read_u16-append front 0 1 (0 ∷ 1 ∷ []) (12 + n) (omega arith))
        (ap (λ m. read_u16 m (12 + n + 2)) e'
          ∙ read_u16-append (front ++ (0 ∷ 1 ∷ [])) 0 1 [] (12 + n + 2)
              (omega (arith, length-append front (0 ∷ 1 ∷ []))))
    ∙ ap (λ (x : List ℕ). ret (x, type_a, class_in)) (sym (map_lower-join (l ∷ ls)))
