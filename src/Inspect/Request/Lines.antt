-- ===== src/Inspect/Request/Lines.antt =====
-- inspect.rs: the lines of a request, and what `http_host` takes of each.
use shadowvpn_ios.Prelude.{
  ℕ, zero, suc, ◌≡◌, ◌≢◌, refl, ap, ◌∙◌, Bool, true, false, not, ◌&&◌, List, [], ◌∷◌, ◌++◌, length,
  take, drop, leb, append_assoc, length-append, All, All-append, get_or-All, arith, ◌==◌,
  if◌then◌else◌, inl, inr, Bool-cases,
}
use shadowvpn_ios.Prelude.Cursor.{At-append}
use shadowvpn_ios.Prelude.Outcome.{ret}
use shadowvpn_ios.Text.{codes, text_eq, trim, as_bytes}
use shadowvpn_ios.Text.Ascii.{as_bytes_ascii, chars_ascii, trim-All}
use shadowvpn_ios.Text.Utf8.{IsAscii, chars, to_ascii_lowercase, to_lower}
use shadowvpn_ios.Inspect.{split_crlf, slice_to, host_line, host_loop}
use shadowvpn_ios.Inspect.Request.{
  Field, field_line, field_lines, IsInLine, IsField, names_host, host_of,
}

pub split_crlf-line :
    (l rest : List ℕ) → All IsInLine l → split_crlf (l ++ (13 ∷ 10 ∷ rest)) ≡ l ∷ split_crlf rest
unfolding split_crlf
split_crlf-line [] rest h = refl
split_crlf-line (c ∷ []) rest (hc, h) =
    let e : (c == 13) ≡ false = ground (arith, hc.1) in rw e refl
split_crlf-line (c ∷ d ∷ l) rest (hc, h) =
    let e : (c == 13) ≡ false = ground (arith, hc.1) in rw (e, split_crlf-line (d ∷ l) rest h) refl

lower_colon : (c : ℕ) → c ≢ b':' → (to_lower c == b':') ≡ false
lower_colon c h = ground (arith, h)

-- The test of a line on its first five bytes.
abbrev pub is_host_line : List ℕ → Bool
is_host_line line = text_eq (to_ascii_lowercase (take 5 line)) (codes "host:")

is_host_line-field :
    (name value : List ℕ)
    → All (λ c. c ≢ b':') name
    → is_host_line (name ++ (b':' ∷ value)) ≡ text_eq (to_ascii_lowercase name) (codes "host")
is_host_line-field [] value h = refl
is_host_line-field (a ∷ []) value h = refl
is_host_line-field (a ∷ b ∷ []) value h = refl
is_host_line-field (a ∷ b ∷ c ∷ []) value h = refl
is_host_line-field (a ∷ b ∷ c ∷ d ∷ []) value h = refl
is_host_line-field (a ∷ b ∷ c ∷ d ∷ e ∷ name) value (_, (_, (_, (_, (he, h))))) =
    rw (lower_colon e he) refl

slice_to_ascii : (line : List ℕ) (i : ℕ) → All IsAscii line → slice_to line i ≡ ret (take i line)
unfolding slice_to
slice_to_ascii line i h =
    let small = get_or-All IsAscii line i 0 (omega arith) h in ground (arith, small)

-- The value of a line that is long enough.
abbrev pub line_value : List ℕ → List ℕ
line_value line = trim (drop 5 line)

All-drop : (n : ℕ) (xs : List ℕ) → All IsAscii xs → All IsAscii (drop n xs)
All-drop zero xs h = h
All-drop (suc n) [] h = tt
All-drop (suc n) (x ∷ xs) (hx, h) = All-drop n xs h

if_and {ℓ} :
    {A : Type ℓ} (a b : Bool) (x y : A)
    → (if a then (if b then x else y) else y) ≡ (if a && b then x else y)
if_and true b x y = refl
if_and false b x y = refl

-- One line of the loop, where it is ASCII.
pub host_loop_step :
    (line : List ℕ) (lines : List (List ℕ))
    → All IsAscii line
    → host_loop (line ∷ lines) ≡ (
        if leb 5 (length line) && (is_host_line line && not (length (line_value line) == 0))
        then ret (line_value line)
        else host_loop lines)
unfolding host_loop host_line
host_loop_step line lines h =
    let value = All-drop 5 line h in
    let same : as_bytes (trim (chars (drop 5 line))) ≡ line_value line =
      ap (λ v. as_bytes (trim v)) (chars_ascii (drop 5 line) value)
      ∙ as_bytes_ascii (line_value line) (trim-All IsAscii (drop 5 line) value) in
    rw (slice_to_ascii line 5 h, same)
      (if_and (leb 5 (length line)) (is_host_line line && not (length (line_value line) == 0))
        (ret (line_value line)) (host_loop lines))

host_len :
    (name : List ℕ) → text_eq (to_ascii_lowercase name) (codes "host") ≡ true → length name ≡ 4
host_len [] h = absurd cc
host_len (a ∷ []) h = ground (arith, h)
host_len (a ∷ b ∷ []) h = ground (arith, h)
host_len (a ∷ b ∷ c ∷ []) h = ground (arith, h)
host_len (a ∷ b ∷ c ∷ d ∷ []) h = refl
host_len (a ∷ b ∷ c ∷ d ∷ e ∷ name) h = ground (arith, h)

pub and_false : (b : Bool) → (b && false) ≡ false
and_false true = refl
and_false false = refl

pub in_line-IsAscii : (s : List ℕ) → All IsInLine s → All IsAscii s
in_line-IsAscii [] h = tt
in_line-IsAscii (c ∷ s) (hc, h) = (hc.0, in_line-IsAscii s h)

field_line-IsInLine : (f : Field) → IsField f → All IsInLine (field_line f)
unfolding field_line
field_line-IsInLine f v =
    All-append IsInLine f.name (b':' ∷ f.value) v.name_ok ((omega arith, omega arith), v.value_ok)

pub field_line-IsAscii : (f : Field) → IsField f → All IsAscii (field_line f)
field_line-IsAscii f v = in_line-IsAscii (field_line f) (field_line-IsInLine f v)

-- One field.
host_loop-field :
    (f : Field) (lines : List (List ℕ))
    → IsField f
    → host_loop (field_line f ∷ lines)
      ≡ (if names_host f then ret (trim f.value) else host_loop lines)
unfolding field_line names_host
host_loop-field f lines v =
    let line = field_line f in
    let named = is_host_line-field f.name f.value v.no_colon in
    let step = host_loop_step line lines (field_line-IsAscii f v) in
    elim (Bool-cases (text_eq (to_ascii_lowercase f.name) (codes "host"))) [
      | inl e ↦
          let four = host_len f.name e in
          let rest : drop 5 line ≡ f.value =
            At-append line 4 5 (b':' ∷ []) f.value
              (At-append line 0 4 f.name (b':' ∷ f.value) refl (omega (arith, four))) refl in
          let long : leb 5 (length line) ≡ true =
            ground (arith, length-append f.name (b':' ∷ f.value)) in
          step ∙ rw (named, e, long, rest) refl
      | inr e ↦ step ∙ rw (named, e, and_false (leb 5 (length line))) refl
    ]

-- The lines of the fields, with anything behind them.
pub host_loop-host_of :
    (fs : List Field) (rest host : List ℕ)
    → All IsField fs
    → host_of fs ≡ ret host
    → host_loop (split_crlf (field_lines fs ++ rest)) ≡ ret host
unfolding field_lines host_of
host_loop-host_of [] rest host v e = absurd cc
host_loop-host_of (f ∷ fs) rest host (v, vs) e =
    let line = field_line f in
    let lines = split_crlf (field_lines fs ++ rest) in
    let first : host_loop (split_crlf (field_lines (f ∷ fs) ++ rest))
        ≡ (if names_host f then ret (trim f.value) else host_loop lines) =
      ap (λ s. host_loop (split_crlf s)) (append_assoc line (13 ∷ 10 ∷ field_lines fs) rest)
      ∙ ap host_loop (split_crlf-line line (field_lines fs ++ rest) (field_line-IsInLine f v))
      ∙ host_loop-field f lines v in
    elim (Bool-cases (names_host f)) [
      | inl yes_host ↦ first ∙ rw yes_host (rw yes_host at e)
      | inr no_host ↦ first ∙ rw no_host (host_loop-host_of fs rest host vs (rw no_host at e))
    ]
