-- ===== src/Prelude/Powers.antt =====
-- Powers of two.
use Prim.Native.Nat.{ℕ, zero, suc, ◌+◌, ◌*◌, ◌^◌}
use mathlib.Core.Path.{◌≡◌, sym, ap, ◌∙◌}
use native.Mathlib.Omega.{arith}
use native.Mathlib.Nat.{pow-suc, mul_assoc}

pub pow_split : (i j : ℕ) → 2 ^ i * 2 ^ j ≡ 2 ^ (i + j)
pow_split i zero =
    let e : i ≡ i + 0 = omega arith in
    let one : 2 ^ i * 2 ^ 0 ≡ 2 ^ i = omega arith in one ∙ ap (◌^◌ 2) e
pow_split i (suc j) =
    let e : suc (i + j) ≡ i + suc j = omega arith in
    ap (◌*◌ (2 ^ i)) (pow-suc 2 j)
    ∙ sym (mul_assoc (2 ^ i) (2 ^ j) 2)
    ∙ ap (λ x. x * 2) (pow_split i j)
    ∙ sym (pow-suc 2 (i + j))
    ∙ ap (◌^◌ 2) e
