-- ===== src/Prelude/Cursor.antt =====
-- Reading a byte string from a position on: what stands at the cursor, and moving it.
use Prim.Native.Nat.{ℕ, zero, suc, ◌+◌, ◌<◌}
use mathlib.Core.Path.{◌≡◌, refl, ap, ◌∙◌}
use mathlib.Core.List.{List, [], ◌∷◌, ◌++◌}
use mathlib.Core.Option.{some}
use native.Mathlib.Omega.{arith}
use shadowvpn_ios.Prelude.Lists.{length, drop, get_elem?, get_or, length-drop}
use shadowvpn_ios.Prelude.Outcome.{ret, index, get}

-- `rest` is what stands in `xs` from `p` on.
abbrev pub At : List ℕ → ℕ → List ℕ → Type 0
At xs p rest = drop p xs ≡ rest

At-suc : (xs : List ℕ) (p b : ℕ) (rest : List ℕ) → At xs p (b ∷ rest) → At xs (suc p) rest
At-suc [] zero b rest h = absurd cc
At-suc [] (suc p) b rest h = absurd cc
At-suc (x ∷ xs) zero b rest h = cc
At-suc (x ∷ xs) (suc p) b rest h = At-suc xs p b rest h

-- The cursor moves over a list.
pub At-append :
    (xs : List ℕ) (p q : ℕ) (l rest : List ℕ)
    → At xs p (l ++ rest)
    → q ≡ p + length l
    → At xs q rest
At-append xs p q [] rest h e = let same : q ≡ p = omega arith in ap (λ n. drop n xs) same ∙ h
At-append xs p q (b ∷ l) rest h e =
    At-append xs (suc p) q l rest (At-suc xs p b (l ++ rest) h) (omega arith)

get_elem?-At :
    (xs : List ℕ) (p b : ℕ) (rest : List ℕ) → At xs p (b ∷ rest) → get_elem? xs p ≡ some b
get_elem?-At [] zero b rest h = absurd cc
get_elem?-At [] (suc p) b rest h = absurd cc
get_elem?-At (x ∷ xs) zero b rest h = cc
get_elem?-At (x ∷ xs) (suc p) b rest h = get_elem?-At xs p b rest h

-- The byte at the cursor.
pub index-At :
    (xs : List ℕ) (p b : ℕ) (rest : List ℕ)
    → At xs p (b ∷ rest)
    → (index xs p ≡ ret b) × (get xs p ≡ ret b)
unfolding index get
index-At xs p b rest h = let e = get_elem?-At xs p b rest h in (rw (e, index), rw (e, get))

-- A cursor in front of a byte stands inside the byte string.
pub At-lt :
    (xs : List ℕ) (p b : ℕ) (rest : List ℕ) → At xs p (b ∷ rest) → p + 1 + length rest ≡ length xs
At-lt xs p b rest h = omega (arith, length-drop p xs, ap length h)

-- A byte of the first part.
pub index-append_left :
    (xs ys : List ℕ) (i : ℕ) → i < length xs → index (xs ++ ys) i ≡ ret (get_or xs i 0)
unfolding index
index-append_left [] ys i h = absurd (omega arith)
index-append_left (x ∷ xs) ys zero h = refl
index-append_left (x ∷ xs) ys (suc i) h = index-append_left xs ys i (omega arith)
