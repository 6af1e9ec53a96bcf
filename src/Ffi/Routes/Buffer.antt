-- ===== src/Ffi/Routes/Buffer.antt =====
-- lib.rs, `svpn_country_cidrs_file`: the caller's buffer.
use shadowvpn_ios.Prelude.{
  ℕ, zero, suc, ◌+◌, ◌-◌, ◌≤◌, ◌<◌, ◌≡◌, refl, ap, ◌∙◌, List, [], ◌∷◌, ◌++◌, min, take, drop,
  length, length-append, length-take, length-drop, arith,
}
use shadowvpn_ios.Ffi.Strings.{IsCString, from_ptr-append}
use shadowvpn_ios.Ffi.{from_ptr}
use shadowvpn_ios.Ffi.Routes.{copy_out}

take-IsCString : (n : ℕ) (bytes : List ℕ) → IsCString bytes → IsCString (take n bytes)
take-IsCString zero bytes h = tt
take-IsCString (suc n) [] h = tt
take-IsCString (suc n) (b ∷ bytes) (hb, h) = (hb, take-IsCString n bytes h)

drop-drop : (m n k : ℕ) (xs : List ℕ) → k ≡ n + m → drop m (drop n xs) ≡ drop k xs
drop-drop m zero k xs h = let e : m ≡ k = omega arith in ap (λ i. drop i xs) e
drop-drop m (suc n) zero xs h = absurd (omega arith)
drop-drop zero (suc n) (suc k) [] h = refl
drop-drop (suc m) (suc n) (suc k) [] h = refl
drop-drop m (suc n) (suc k) (x ∷ xs) h = drop-drop m n k xs (omega arith)

drop_past : (n k : ℕ) (xs ys : List ℕ) → n ≡ length xs + k → drop n (xs ++ ys) ≡ drop k ys
drop_past n k [] ys h = let e : n ≡ k = omega arith in ap (λ i. drop i ys) e
drop_past zero k (x ∷ xs) ys h = absurd (omega arith)
drop_past (suc n) k (x ∷ xs) ys h = drop_past n k xs ys (omega arith)

take-min : (m n : ℕ) (xs : List ℕ) → m ≡ min (length xs) n → take m xs ≡ take n xs
take-min zero zero xs h = refl
take-min zero (suc n) [] h = refl
take-min zero (suc n) (x ∷ xs) h = absurd (omega arith)
take-min (suc m) zero xs h = absurd (omega arith)
take-min (suc m) (suc n) [] h = refl
take-min (suc m) (suc n) (x ∷ xs) h = ap (◌∷◌ x) (take-min m n xs (omega arith))

-- For a buffer of `cap` bytes in the caller's memory and bytes without a NUL: the memory keeps its length,
-- nothing behind the buffer changes, and the C string in the buffer is the bytes up to `cap - 1` of them,
-- so all of them where they are fewer than `cap`.
pub copy_out-Bounded :
    (bytes memory : List ℕ) (cap : ℕ)
    → 0 < cap
    → cap ≤ length memory
    → IsCString bytes
    → (length (copy_out bytes cap memory) ≡ length memory)
      × (drop cap (copy_out bytes cap memory) ≡ drop cap memory)
      × (from_ptr (copy_out bytes cap memory) ≡ take (cap - 1) bytes)
unfolding copy_out
copy_out-Bounded bytes memory cap room fits nul =
    let copy = min (length bytes) (cap - 1) in
    let taken = length-take copy bytes in
    let rest = 0 ∷ drop (copy + 1) memory in
    (
      omega (arith, length-append (take copy bytes) rest, length-drop (copy + 1) memory),
      drop_past cap (suc (cap - copy - 1)) (take copy bytes) rest (omega arith)
          ∙ drop-drop (cap - copy - 1) (copy + 1) cap memory (omega arith),
      from_ptr-append (take copy bytes) (drop (copy + 1) memory) (take-IsCString copy bytes nul)
          ∙ take-min copy (cap - 1) bytes refl,
    )
