-- ===== src/Country/Blocks.antt =====
-- country.rs, `range_to_cidrs`: the addresses of the blocks that it makes.
use native.Mathlib.Nat.{pow-suc, mul_assoc, mul-div_cancel, pow-le-pow_right}
use native.Mathlib.Decide.{dec_le}
use shadowvpn_ios.Prelude.{
  ℕ, zero, suc, ◌+◌, ◌-◌, ◌*◌, ◌/◌, ◌%◌, ◌^◌, ◌≤◌, ◌<◌, ◌≡◌, ◌↔◌, inl, inr, refl, sym, ap, subst,
  ◌∙◌, Bool, true, false, List, [], ◌∷◌, min, ltb, ◌==◌, if◌then◌else◌, arith, Bool-cases, ==_iff,
  ltb→lt, pow_split,
}
use shadowvpn_ios.Chnroute.{Range, Covers}
use shadowvpn_ios.Chnroute.Cidr.{block}
use shadowvpn_ios.Country.{
  Cidr, zeros_loop, trailing_zeros, log2_loop, floor_log2, cidrs_loop, range_to_cidrs,
}

-- The ranges that CIDRs stand for.
abbrev pub ranges_of : List Cidr → List Range
ranges_of [] = []
ranges_of ((a, p) ∷ cs) = block a p ∷ ranges_of cs

abbrev pub IsMultiple : ℕ → ℕ → Type 0
IsMultiple m n = (k : ℕ) × (n ≡ k * m)

zeros_loop_le : (w n : ℕ) → zeros_loop w n ≤ w
unfolding zeros_loop
zeros_loop_le zero n = omega arith
zeros_loop_le (suc w) n = ground (arith, zeros_loop_le w (n / 2))

zeros_loop-divides : (w n : ℕ) → IsMultiple (2 ^ zeros_loop w n) n
unfolding zeros_loop
zeros_loop-divides zero n = (n, omega arith)
zeros_loop-divides (suc w) n = elim (Bool-cases (n % 2 == 0)) [
  | inl e ↦
      let (k, h) = zeros_loop-divides w (n / 2) in
      let half : n ≡ n / 2 * 2 = omega (arith, (==_iff (n % 2) 0).0 e) in
      let two : n / 2 * 2 ≡ k * 2 ^ zeros_loop w (n / 2) * 2 = ap (λ x. x * 2) h in
      let grouped : k * 2 ^ zeros_loop w (n / 2) * 2 ≡ k * 2 ^ suc (zeros_loop w (n / 2)) =
        mul_assoc k (2 ^ zeros_loop w (n / 2)) 2
        ∙ sym (ap (◌*◌ k) (pow-suc 2 (zeros_loop w (n / 2)))) in
      rw e (k, half ∙ two ∙ grouped)
  | inr e ↦ rw e (n, omega arith)
]

log2_loop_le : (w n : ℕ) → 1 ≤ n → 2 ^ log2_loop w n ≤ n
unfolding log2_loop
log2_loop_le zero n h = omega arith
log2_loop_le (suc w) n h = elim (Bool-cases (n / 2 == 0)) [
  | inl e ↦ rw e (omega arith)
  | inr e ↦
      let ih = log2_loop_le w (n / 2) (ground arith) in
      rw (e, pow-suc 2 (log2_loop w (n / 2))) (omega arith)
]

IsMultiple-below : (i j n : ℕ) → i ≤ j → IsMultiple (2 ^ j) n → IsMultiple (2 ^ i) n
IsMultiple-below i j n h (k, e) =
    let j_split : j ≡ j - i + i = omega arith in
    (
      k * 2 ^ (j - i),
      e
          ∙ ap (λ x. k * 2 ^ x) j_split
          ∙ ap (◌*◌ k) (sym (pow_split (j - i) i))
          ∙ sym (mul_assoc k (2 ^ (j - i)) (2 ^ i)),
    )

block_aligned :
    (bits start : ℕ)
    → bits ≤ 32
    → IsMultiple (2 ^ bits) start
    → block start (32 - bits) ≡ (start, start + (2 ^ bits - 1))
unfolding block
block_aligned bits start h (k, e) =
    let size : 32 - (32 - bits) ≡ bits = omega arith in
    let whole : start / 2 ^ bits * 2 ^ bits ≡ start =
      ap (λ s. s / 2 ^ bits * 2 ^ bits) e
      ∙ ap (λ q. q * 2 ^ bits)
          (mul-div_cancel k
            (pow-le-pow_right {n = 2} (omega arith) {i = 0} {j = bits} (omega arith)))
      ∙ sym e in
    rw (size, whole) refl

-- A round that takes an aligned block which fits leaves the addresses behind the block.
pub block-Covers :
    (bits start end v : ℕ) (rest : List Range)
    → bits ≤ 32
    → IsMultiple (2 ^ bits) start
    → 2 ^ bits ≤ end - start + 1
    → start ≤ end
    → Covers rest v ↔ (start + 2 ^ bits ≤ v) × (v ≤ end)
    → Covers (block start (32 - bits) ∷ rest) v ↔ (start ≤ v) × (v ≤ end)
block-Covers bits start end v rest hb hm fits le (to, from) =
    let pos : 1 ≤ 2 ^ bits =
      pow-le-pow_right {n = 2} (omega arith) {i = 0} {j = bits} (omega arith) in
    subst (λ r. Covers (r ∷ rest) v ↔ (start ≤ v) × (v ≤ end))
      (sym (block_aligned bits start hb hm))
      (
        λ h. elim h [ inl (lo, hi) ↦ (lo, omega arith) | inr c ↦ omega (arith, to c) ],
        λ (lo, hi). elim (dec_le (start + 2 ^ bits) v) [
          | yes far ↦ inr (from (far, hi))
          | no near ↦ inl (lo, omega (arith, near))
        ],
      )

-- The size of the block that a round takes, for the span that it counts.
module _ (start span : ℕ) where
  abbrev pub bits : ℕ
  bits = min (trailing_zeros start) (floor_log2 span)

  pub bits_le : bits ≤ 32
  bits_le = omega (arith, zeros_loop_le 32 start)

  pub bits-divides : IsMultiple (2 ^ bits) start
  bits-divides =
      IsMultiple-below bits (trailing_zeros start) start (omega arith) (zeros_loop-divides 32 start)

  pub bits-fits : 1 ≤ span → 2 ^ bits ≤ span
  bits-fits h =
      let small : bits ≤ floor_log2 span = omega arith in
      let low : 2 ^ bits ≤ 2 ^ floor_log2 span = pow-le-pow_right {n = 2} (omega arith) small in
      omega (arith, low, log2_loop_le 63 span h)

pub pow_pos : (n : ℕ) → 1 ≤ 2 ^ n
pow_pos n = pow-le-pow_right {n = 2} (omega arith) {i = 0} {j = n} (omega arith)

-- What a loop leaves for its next round, or nothing where it stops.
pub rest-Covers :
    (stops : Bool) (next end v : ℕ) (rest : List Cidr)
    → (stops ≡ true → end < next)
    → (stops ≡ false → Covers (ranges_of rest) v ↔ (next ≤ v) × (v ≤ end))
    → Covers (ranges_of (if stops then [] else rest)) v ↔ (next ≤ v) × (v ≤ end)
rest-Covers true next end v rest over more = (λ h. absurd h, λ h. absurd (omega (arith, over refl)))
rest-Covers false next end v rest over more = more refl

cidrs_loop-Covers :
    (fuel start end v : ℕ)
    → start ≤ end
    → end + 1 - start ≤ fuel
    → Covers (ranges_of (cidrs_loop fuel start end)) v ↔ (start ≤ v) × (v ≤ end)
unfolding cidrs_loop
cidrs_loop-Covers zero start end v le enough = absurd (omega arith)
cidrs_loop-Covers (suc fuel) start end v le enough =
    let span = end - start + 1 in
    let b = bits start span in
    let next = start + 2 ^ b in
    let pos = pow_pos b in
    block-Covers b start end v (ranges_of (if ltb end next then [] else cidrs_loop fuel next end))
      (bits_le start span) (bits-divides start span) (bits-fits start span (omega arith)) le
      (rest-Covers (ltb end next) next end v (cidrs_loop fuel next end) (λ h. ltb→lt end next h)
        (λ h. cidrs_loop-Covers fuel next end v (ground (arith, h)) (omega (arith, pos))))

-- The CIDRs of a range that is not empty cover its addresses and no other.
pub range_to_cidrs-Covers :
    (start end v : ℕ)
    → start ≤ end
    → Covers (ranges_of (range_to_cidrs start end)) v ↔ (start ≤ v) × (v ≤ end)
unfolding range_to_cidrs
range_to_cidrs-Covers start end v le =
    cidrs_loop-Covers (end + 1 - start) start end v le (omega arith)
