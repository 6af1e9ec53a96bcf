-- ===== src/Text/Utf8/Decoded.antt =====
-- `str::from_utf8` on what `as_bytes` gives.
use shadowvpn_ios.Prelude.{
  ℕ, zero, suc, ◌≤◌, ◌<◌, ◌≡◌, ◌⊎◌, refl, ap, ◌∙◌, true, List, [], ◌∷◌, ◌++◌, length, length-append,
  drop, drop-append, All, arith,
}
use shadowvpn_ios.Text.{Text, utf8, as_bytes}
use shadowvpn_ios.Text.Utf8.{
  between, second_ok, width, chunk, valid_loop, is_utf8, chars_loop, chars,
}

-- A Unicode scalar value.
abbrev pub IsScalar : ℕ → Type 0
IsScalar c = (c < 0x110000) × ((c < 0xD800) ⊎ (0xE000 ≤ c))

chars_step :
    (fuel c : ℕ) (bs : List ℕ)
    → IsScalar c
    → chars_loop (suc fuel) (utf8 c ++ bs) ≡ c ∷ chars_loop fuel bs
unfolding chars_loop utf8
chars_step fuel c bs h = ground arith

chunk_step : (c : ℕ) (bs : List ℕ) → IsScalar c → chunk (utf8 c ++ bs) ≡ (length (utf8 c), true)
unfolding chunk width second_ok between utf8
chunk_step c bs h = ground arith

valid_cons :
    (fuel n : ℕ) (bs : List ℕ)
    → 0 < length bs
    → chunk bs ≡ (n, true)
    → valid_loop (suc fuel) bs ≡ valid_loop fuel (drop n bs)
unfolding valid_loop
valid_cons fuel n [] h e = absurd (omega arith)
valid_cons fuel n (b ∷ bs) h e = rw e refl

utf8_pos : (c : ℕ) → 0 < length (utf8 c)
unfolding utf8
utf8_pos c = ground arith

valid_step :
    (fuel c : ℕ) (bs : List ℕ)
    → IsScalar c
    → valid_loop (suc fuel) (utf8 c ++ bs) ≡ valid_loop fuel bs
valid_step fuel c bs h =
    let e : 0 < length (utf8 c ++ bs) = omega (arith, utf8_pos c, length-append (utf8 c) bs) in
    valid_cons fuel (length (utf8 c)) (utf8 c ++ bs) e (chunk_step c bs h)
    ∙ ap (valid_loop fuel) (drop-append (length (utf8 c)) (utf8 c) bs refl)

loops_lem :
    (fuel : ℕ) (s : Text)
    → length s ≤ fuel
    → All IsScalar s
    → (valid_loop fuel (as_bytes s) ≡ true) × (chars_loop fuel (as_bytes s) ≡ s)
unfolding as_bytes valid_loop chars_loop
loops_lem fuel [] h a = (refl, refl)
loops_lem zero (c ∷ s) h a = absurd (omega arith)
loops_lem (suc fuel) (c ∷ s) h (hc, a) =
    let (valid, same) = loops_lem fuel s (omega arith) a in
    (valid_step fuel c (as_bytes s) hc ∙ valid, chars_step fuel c (as_bytes s) hc ∙ ap (◌∷◌ c) same)

length-as_bytes : (s : Text) → length s ≤ length (as_bytes s)
unfolding as_bytes
length-as_bytes [] = omega arith
length-as_bytes (c ∷ s) =
    omega (arith, utf8_pos c, length-append (utf8 c) (as_bytes s), length-as_bytes s)

-- The bytes of a text of Unicode scalar values are UTF-8, and decode to the text.
pub chars-as_bytes :
    (s : Text) → All IsScalar s → (is_utf8 (as_bytes s) ≡ true) × (chars (as_bytes s) ≡ s)
unfolding is_utf8 chars
chars-as_bytes s a = loops_lem (length (as_bytes s)) s (length-as_bytes s) a
