-- ===== src/Dns/Message/Records.antt =====
-- vendor/dns.rs: the loops over the answer records.
use shadowvpn_ios.Prelude.{
  ℕ, suc, ◌+◌, ◌*◌, ◌/◌, ◌%◌, ◌^◌, ◌≤◌, ◌≡◌, refl, sym, ap, ◌∙◌, false, Bool, ◌&&◌, Option, List,
  [], ◌∷◌, ◌++◌, length, ltb, append-nil, append_assoc, length-append, length-drop, All, be16, be32,
  to_be16, arith, ◌==◌, if◌then◌else◌,
}
use shadowvpn_ios.Prelude.Cursor.{At, At-append}
use shadowvpn_ios.Prelude.Outcome.{Outcome, ret, ◌>>=◌}
use shadowvpn_ios.Dns.{
  skip_name, read_u16, a_loop, ttl_loop, min_option, from_option, type_a, class_in,
}
use shadowvpn_ios.Dns.Message.{
  name_wire, Answer, to_be32, record_wire, answers_wire, IsAnswer, four_bytes, address, addresses,
}
use shadowvpn_ios.Dns.Message.Names.{read_u16-At, skip_name-wire}

-- What the loops read of the record at `pos`.
record IsRead (msg : List ℕ) (pos : ℕ) (a : Answer) (rest : List ℕ) (next : ℕ) : Type 0 where
  skipped : skip_name msg pos ≡ ret next
  type_read : read_u16 msg next ≡ ret a.rtype
  class_read : read_u16 msg (next + 2) ≡ ret a.rclass
  ttl_high : read_u16 msg (next + 4) ≡ ret (a.ttl / 2 ^ 16)
  ttl_low : read_u16 msg (next + 6) ≡ ret (a.ttl % 2 ^ 16)
  rdlength : read_u16 msg (next + 8) ≡ ret (length a.rdata)
  rdata_at : At msg (next + 10) (a.rdata ++ rest)
  fits : next + 10 + length a.rdata ≤ length msg
  after : At msg (next + 10 + length a.rdata) rest

pub read_field :
    (msg : List ℕ) (p n : ℕ) (rest : List ℕ)
    → At msg p (to_be16 n ++ rest)
    → read_u16 msg p ≡ ret (n % 2 ^ 16)
read_field msg p n rest h =
    let e : be16 (n / 256 % 256) (n % 256) ≡ n % 2 ^ 16 = omega arith in
    read_u16-At msg p (n / 256 % 256) (n % 256) rest h ∙ ap ret e

is_read :
    (msg : List ℕ) (pos : ℕ) (a : Answer) (rest : List ℕ)
    → At msg pos (name_wire a.owner ++ (record_wire a ++ rest))
    → IsAnswer a
    → IsRead msg pos a rest (pos + length (name_wire a.owner))
unfolding record_wire
is_read msg pos a rest h v =
    let next = pos + length (name_wire a.owner) in
    let n = length a.rdata in
    let start = At-append msg pos next (name_wire a.owner) (record_wire a ++ rest) h refl in
    let at =
      λ (p : ℕ) (l : List ℕ) (m : ℕ) (r : List ℕ) (e : p ≡ next + length l)
          (s : record_wire a ++ rest ≡ l ++ (to_be16 m ++ r)).
        read_field msg p m r (At-append msg next p l (to_be16 m ++ r) (start ∙ s) e) in
    let rdata_at =
      At-append msg next (next + 10)
        (to_be16 a.rtype ++ (to_be16 a.rclass ++ (to_be32 a.ttl ++ to_be16 n))) (a.rdata ++ rest)
        start refl in
    record {
      skipped = skip_name-wire msg a.owner pos (record_wire a ++ rest) h v.owner_ok;
      type_read = at next [] a.rtype _ (omega arith) refl ∙ ap ret (omega (arith, v.rtype_ok));
      class_read =
          at (next + 2) (to_be16 a.rtype) a.rclass _ refl refl
          ∙ ap ret (omega (arith, v.rclass_ok));
      ttl_high =
          at (next + 4) (to_be16 a.rtype ++ to_be16 a.rclass) (a.ttl / 2 ^ 16) _ refl refl
          ∙ ap ret (omega (arith, v.ttl_ok));
      ttl_low =
          at (next + 6) (to_be16 a.rtype ++ (to_be16 a.rclass ++ to_be16 (a.ttl / 2 ^ 16))) a.ttl _
            refl refl;
      rdlength =
          at (next + 8) (to_be16 a.rtype ++ (to_be16 a.rclass ++ to_be32 a.ttl)) n _ refl refl
          ∙ ap ret (omega (arith, v.rdata_ok));
      rdata_at = rdata_at;
      fits = omega (arith, ap length start, length-drop next msg, length-append a.rdata rest);
      after = At-append msg (next + 10) (next + 10 + n) a.rdata rest rdata_at refl;
    }

module _ (msg : List ℕ) (count p q : ℕ) (out rest : List ℕ) (wanted : Bool) where
  -- What the loop does behind the fixed fields.
  abbrev take_or_skip : List ℕ → Outcome (List ℕ)
  take_or_skip rdata =
      if wanted && length rdata == 4
      then (do
        high ← read_u16 msg p
        low ← read_u16 msg (p + 2)
        a_loop msg count q (out ++ ((high * 2 ^ 16 + low) ∷ [])))
      else a_loop msg count q out

  take_or_skip_lem :
      (rdata : List ℕ)
      → At msg p (rdata ++ rest)
      → take_or_skip rdata ≡ a_loop msg count q (out ++ (if wanted then four_bytes rdata else []))
  unfolding four_bytes
  take_or_skip_lem [] h = ground (arith, append-nil out)
  take_or_skip_lem (a ∷ []) h = ground (arith, append-nil out)
  take_or_skip_lem (a ∷ b ∷ []) h = ground (arith, append-nil out)
  take_or_skip_lem (a ∷ b ∷ c ∷ []) h = ground (arith, append-nil out)
  take_or_skip_lem (a ∷ b ∷ c ∷ d ∷ []) h =
      let high = read_u16-At msg p a b (c ∷ d ∷ rest) h in
      let low =
        read_u16-At msg (p + 2) c d rest
          (At-append msg p (p + 2) (a ∷ b ∷ []) (c ∷ d ∷ rest) h refl) in
      let e : be16 a b * 2 ^ 16 + be16 c d ≡ be32 a b c d = omega arith in
      rw (high, low, e) (ground (arith, append-nil out))
  take_or_skip_lem (a ∷ b ∷ c ∷ d ∷ e ∷ rdata) h = ground (arith, append-nil out)

a_loop_step :
    (msg : List ℕ) (count pos next : ℕ) (out : List ℕ) (a : Answer) (rest : List ℕ)
    → IsRead msg pos a rest next
    → a_loop msg (suc count) pos out
      ≡ a_loop msg count (next + 10 + length a.rdata) (out ++ address a)
unfolding a_loop address
a_loop_step msg count pos next out a rest r =
    let wanted = a.rtype == type_a && a.rclass == class_in in
    let fits : ltb (length msg) (next + 10) ≡ false = ground (arith, r.fits) in
    let fits' : ltb (length msg) (next + 10 + length a.rdata) ≡ false = ground (arith, r.fits) in
    rw (r.skipped, fits, r.type_read, r.class_read, r.rdlength, fits')
      (take_or_skip_lem msg count (next + 10) (next + 10 + length a.rdata) out rest wanted a.rdata
        r.rdata_at)

split_record :
    (a : Answer) (rs : List Answer) (rest msg : List ℕ) (pos : ℕ)
    → At msg pos (answers_wire (a ∷ rs) ++ rest)
    → At msg pos (name_wire a.owner ++ (record_wire a ++ (answers_wire rs ++ rest)))
unfolding answers_wire
split_record a rs rest msg pos h =
    h
    ∙ append_assoc (name_wire a.owner) (record_wire a ++ answers_wire rs) rest
    ∙ ap (◌++◌ (name_wire a.owner)) (append_assoc (record_wire a) (answers_wire rs) rest)

-- The answer loop collects the addresses of the records in their order.
pub a_loop-answers :
    (rs : List Answer) (msg : List ℕ) (pos : ℕ) (out rest : List ℕ)
    → At msg pos (answers_wire rs ++ rest)
    → All IsAnswer rs
    → a_loop msg (length rs) pos out ≡ ret (out ++ addresses rs)
unfolding a_loop answers_wire addresses
a_loop-answers [] msg pos out rest h v = ap ret (sym (append-nil out))
a_loop-answers (a ∷ rs) msg pos out rest h (v, vs) =
    let r = is_read msg pos a (answers_wire rs ++ rest) (split_record a rs rest msg pos h) v in
    a_loop_step msg (length rs) pos _ out a (answers_wire rs ++ rest) r
    ∙ a_loop-answers rs msg _ (out ++ address a) rest r.after vs
    ∙ ap ret (append_assoc out (address a) (addresses rs))

-- The loop of `min_ttl` takes the least of the lifetimes.
abbrev pub least : List Answer → Option ℕ → Option ℕ
least [] m = m
least (a ∷ rs) m = least rs (min_option m a.ttl)

pub ttl_loop-answers :
    (rs : List Answer) (msg : List ℕ) (pos : ℕ) (m : Option ℕ) (rest : List ℕ)
    → At msg pos (answers_wire rs ++ rest)
    → All IsAnswer rs
    → ttl_loop msg (length rs) pos m ≡ from_option (least rs m)
unfolding ttl_loop answers_wire
ttl_loop-answers [] msg pos m rest h v = refl
ttl_loop-answers (a ∷ rs) msg pos m rest h (v, vs) =
    let next = pos + length (name_wire a.owner) in
    let r = is_read msg pos a (answers_wire rs ++ rest) (split_record a rs rest msg pos h) v in
    let fits : ltb (length msg) (next + 10) ≡ false = ground (arith, r.fits) in
    let ttl : a.ttl / 2 ^ 16 * 2 ^ 16 + a.ttl % 2 ^ 16 ≡ a.ttl = omega arith in
    rw (r.skipped, fits, r.ttl_high, r.ttl_low, r.rdlength, ttl)
      (ttl_loop-answers rs msg (next + 10 + length a.rdata) (min_option m a.ttl) rest r.after vs)
