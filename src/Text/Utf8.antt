-- ===== src/Text/Utf8.antt =====
-- `String::from_utf8_lossy`: bytes to a UTF-8 string, kept as its bytes. Every maximal invalid prefix
-- becomes U+FFFD.
pub mod Decoded
use shadowvpn_ios.Prelude.{
  ℕ, zero, suc, ◌*◌, ◌%◌, ◌+◌, ◌≤◌, ◌<◌, ◌≡◌, refl, ap, Bool, true, false, ◌&&◌, List, [], ◌∷◌,
  ◌++◌, length, take, drop, get_or, ltb, leb, ◌==◌, if◌then◌else◌, All, arith, map, length-append,
}

between : ℕ → ℕ → ℕ → Bool
between lo hi b = leb lo b && leb b hi

-- The range of the second byte that a first byte of a sequence of three or four allows.
second_ok : ℕ → ℕ → Bool
unfolding between
second_ok b c =
    if b == 0xE0
    then between 0xA0 0xBF c
    else if b == 0xED
    then between 0x80 0x9F c
    else if b == 0xF0
    then between 0x90 0xBF c
    else if b == 0xF4
    then between 0x80 0x8F c
    else between 0x80 0xBF c

-- The length of the sequence that a first byte announces; 0 for no first byte.
width : ℕ → ℕ
unfolding between
width b =
    if ltb b 0x80
    then 1
    else if between 0xC2 0xDF b
    then 2
    else if between 0xE0 0xEF b
    then 3
    else if between 0xF0 0xF4 b
    then 4
    else 0

-- How many bytes the first chunk takes, and whether they are a valid sequence. A byte beyond the end
-- reads as 0, which continues no sequence.
chunk : List ℕ → ℕ × Bool
unfolding between second_ok width
chunk [] = (0, true)
chunk (b ∷ bs) =
    let w = width b in
    let c1 = get_or bs 0 0 in
    let tail = λ (i : ℕ). between 0x80 0xBF (get_or bs i 0) in
    if w == 1
    then (1, true)
    else if w == 2
    then (if tail 0 then (2, true) else (1, false))
    else if w == 3
    then (if second_ok b c1 then (if tail 1 then (3, true) else (2, false)) else (1, false))
    else if w == 4
    then (if second_ok b c1
        then (if tail 1 then (if tail 2 then (4, true) else (3, false)) else (2, false))
        else (1, false))
    else (1, false)

-- A chunk takes a byte at least, so as many rounds as bytes are enough.
lossy_loop : ℕ → List ℕ → List ℕ
unfolding chunk
lossy_loop fuel [] = []
lossy_loop zero (b ∷ bs) = []
lossy_loop (suc fuel) (b ∷ bs) =
    let (n, valid) = chunk (b ∷ bs) in
    (if valid then take n (b ∷ bs) else 0xEF ∷ 0xBF ∷ 0xBD ∷ [])
    ++ lossy_loop fuel (drop n (b ∷ bs))

unfoldable pub from_utf8_lossy : List ℕ → List ℕ
unfolding lossy_loop
from_utf8_lossy bs = lossy_loop (length bs) bs

valid_loop : ℕ → List ℕ → Bool
unfolding chunk
valid_loop fuel [] = true
valid_loop zero (b ∷ bs) = true
valid_loop (suc fuel) (b ∷ bs) =
    let (n, valid) = chunk (b ∷ bs) in valid && valid_loop fuel (drop n (b ∷ bs))

-- `str::from_utf8(..).is_ok()`
unfoldable pub is_utf8 : List ℕ → Bool
unfolding valid_loop
is_utf8 bs = valid_loop (length bs) bs

-- The code points of a UTF-8 string.
chars_loop : ℕ → List ℕ → List ℕ
chars_loop fuel [] = []
chars_loop zero (b ∷ bs) = []
chars_loop (suc fuel) (b ∷ bs) =
    let at = λ (i : ℕ). get_or bs i 0 % 64 in
    if ltb b 0x80
    then b ∷ chars_loop fuel bs
    else if ltb b 0xE0
    then (b % 32 * 64 + at 0) ∷ chars_loop fuel (drop 1 bs)
    else if ltb b 0xF0
    then (b % 16 * 4096 + at 0 * 64 + at 1) ∷ chars_loop fuel (drop 2 bs)
    else (b % 8 * 262144 + at 0 * 4096 + at 1 * 64 + at 2) ∷ chars_loop fuel (drop 3 bs)

unfoldable pub chars : List ℕ → List ℕ
unfolding chars_loop
chars bs = chars_loop (length bs) bs

abbrev pub IsAscii : ℕ → Type 0
IsAscii b = b < 128

chunk_ascii : (b : ℕ) (bs : List ℕ) → IsAscii b → chunk (b ∷ bs) ≡ (1, true)
unfolding chunk
chunk_ascii b bs h = ground arith

lossy_loop_ascii :
    (fuel : ℕ) (bs : List ℕ) → length bs ≤ fuel → All IsAscii bs → lossy_loop fuel bs ≡ bs
unfolding lossy_loop
lossy_loop_ascii fuel [] h a = refl
lossy_loop_ascii zero (b ∷ bs) h a = absurd (omega arith)
lossy_loop_ascii (suc fuel) (b ∷ bs) h (ha, a) =
    rw (chunk_ascii b bs ha) (ap (◌∷◌ b) (lossy_loop_ascii fuel bs (omega arith) a))

pub from_utf8_lossy_ascii : (bs : List ℕ) → All IsAscii bs → from_utf8_lossy bs ≡ bs
unfolding from_utf8_lossy
from_utf8_lossy_ascii bs a = lossy_loop_ascii (length bs) bs (omega arith) a

lossy_loop_append :
    (xs ys : List ℕ) (fuel k : ℕ)
    → fuel ≡ length xs + k
    → All IsAscii xs
    → lossy_loop fuel (xs ++ ys) ≡ xs ++ lossy_loop k ys
unfolding lossy_loop
lossy_loop_append [] ys fuel k h a = let e : fuel ≡ k = omega arith in ap (λ n. lossy_loop n ys) e
lossy_loop_append (x ∷ xs) ys zero k h a = absurd (omega arith)
lossy_loop_append (x ∷ xs) ys (suc fuel) k h (hx, a) =
    rw (chunk_ascii x (xs ++ ys) hx) (ap (◌∷◌ x) (lossy_loop_append xs ys fuel k (omega arith) a))

-- An ASCII prefix stays.
pub from_utf8_lossy-append :
    (xs ys : List ℕ) → All IsAscii xs → from_utf8_lossy (xs ++ ys) ≡ xs ++ from_utf8_lossy ys
unfolding from_utf8_lossy
from_utf8_lossy-append xs ys a =
    lossy_loop_append xs ys (length (xs ++ ys)) (length ys) (length-append xs ys) a

-- A byte that starts no character becomes U+FFFD.
pub from_utf8_lossy_ff : from_utf8_lossy (0xFF ∷ []) ≡ 0xEF ∷ 0xBF ∷ 0xBD ∷ []
unfolding from_utf8_lossy
from_utf8_lossy_ff = refl

-- `to_ascii_lowercase`, on the bytes of a UTF-8 string.
abbrev pub to_lower : ℕ → ℕ
to_lower b = if leb b'A' b && leb b b'Z' then b + 32 else b

abbrev pub to_ascii_lowercase : List ℕ → List ℕ
to_ascii_lowercase = map to_lower
