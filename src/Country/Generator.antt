-- ===== src/Country/Generator.antt =====
-- chnroute-gen/src/main.rs, `range_to_cidrs`: the addresses of the blocks that it makes.
use native.Mathlib.Nat.{pow-le-pow_right}
use native.Mathlib.Decide.{dec_le, dec_lt}
use shadowvpn_ios.Prelude.{
  ℕ, zero, suc, ◌+◌, ◌-◌, ◌^◌, ◌≤◌, ◌<◌, ◌≡◌, ◌↔◌, refl, sym, subst, Bool, true, false, ◌||◌, [],
  ◌∷◌, min, ltb, leb, ◌==◌, if◌then◌else◌, arith, ltb→lt,
}
use shadowvpn_ios.Chnroute.{u32_max, Covers}
use shadowvpn_ios.Country.{zeros_loop, trailing_zeros, floor_log2, gen_loop, gen_range_to_cidrs}
use shadowvpn_ios.Country.Blocks.{
  ranges_of, bits, bits_le, bits-divides, bits-fits, pow_pos, rest-Covers, block-Covers,
}

trailing_zeros_zero : trailing_zeros 0 ≡ 32
unfolding zeros_loop
trailing_zeros_zero = refl

by_align_lem :
    (start : ℕ) → (if start == 0 then 32 else trailing_zeros start) ≡ trailing_zeros start
by_align_lem zero = sym trailing_zeros_zero
by_align_lem (suc n) = rw (positive n) refl
  where
    positive : (n : ℕ) → (suc n == 0) ≡ false
    positive n = ground arith

by_span_lem : (x : ℕ) → (if suc x == 0 then 0 else suc x - 1) ≡ x
by_span_lem x = ground arith

bits_small : (b span : ℕ) → 2 ^ b ≤ span → span < 2 ^ 32 → b < 32
bits_small b span h l = elim (dec_lt b 32) [
  | yes y ↦ y
  | no n ↦
      let big : 2 ^ 32 ≤ 2 ^ b =
        pow-le-pow_right {n = 2} (omega arith) {i = 32} {j = b} (omega (arith, n)) in
      absurd (omega (arith, big))
]

or_zero : (x : Bool) (n : ℕ) → 1 ≤ n → (x || n == 0) ≡ x
or_zero true n h = refl
or_zero false n h = ground arith

gen_step :
    (fuel start end b : ℕ)
    → b ≡ bits start (min (end - start + 1) u32_max)
    → b < 32
    → 1 ≤ 2 ^ b
    → start ≤ end
    → gen_loop (suc fuel) start end
      ≡ (start, 32 - b)
        ∷ (if ltb u32_max (start + 2 ^ b) then [] else gen_loop fuel (start + 2 ^ b) end)
unfolding gen_loop
gen_step fuel start end b e small pos le =
    let whole : (if ltb b 32 then 2 ^ b else 0) ≡ 2 ^ b = ground arith in
    let goes : leb start end ≡ true = ground arith in
    rw
      (
        by_align_lem start,
        by_span_lem (floor_log2 (min (end - start + 1) u32_max)),
        ← e,
        whole,
        goes,
      )
      (rw (or_zero (ltb u32_max (start + 2 ^ b)) (2 ^ b) pos) refl)

gen_stop : (fuel start end : ℕ) → end < start → gen_loop (suc fuel) start end ≡ []
unfolding gen_loop
gen_stop fuel start end h = let stops : leb start end ≡ false = ground arith in rw stops refl

gen_loop-Covers :
    (fuel start end v : ℕ)
    → end ≤ u32_max
    → end + 1 - start ≤ fuel
    → Covers (ranges_of (gen_loop fuel start end)) v ↔ (start ≤ v) × (v ≤ end)
gen_loop-Covers zero start end v top enough =
    unfold gen_loop in (λ h. absurd h, λ h. absurd (omega (arith, h)))
gen_loop-Covers (suc fuel) start end v top enough = elim (dec_le start end) [
  | no n ↦
      subst (λ cs. Covers (ranges_of cs) v ↔ (start ≤ v) × (v ≤ end))
        (sym (gen_stop fuel start end (omega (arith, n))))
        (λ h. absurd h, λ h. absurd (omega (arith, h, n)))
  | yes le ↦
      let span = min (end - start + 1) u32_max in
      let b = bits start span in
      let next = start + 2 ^ b in
      let pos = pow_pos b in
      let fits = bits-fits start span (omega arith) in
      subst (λ cs. Covers (ranges_of cs) v ↔ (start ≤ v) × (v ≤ end))
        (sym (gen_step fuel start end b refl (bits_small b span fits (omega arith)) pos le))
        (block-Covers b start end v
          (ranges_of (if ltb u32_max next then [] else gen_loop fuel next end)) (bits_le start span)
          (bits-divides start span) (omega (arith, fits)) le
          (rest-Covers (ltb u32_max next) next end v (gen_loop fuel next end)
            (λ h. omega (arith, ltb→lt u32_max next h))
            (λ h. gen_loop-Covers fuel next end v top (omega (arith, pos)))))
]

-- The generator's CIDRs of a range of addresses cover it and nothing else, though it counts the span
-- in 32 bits.
pub gen_range_to_cidrs-Covers :
    (start end v : ℕ)
    → end ≤ u32_max
    → Covers (ranges_of (gen_range_to_cidrs start end)) v ↔ (start ≤ v) × (v ≤ end)
unfolding gen_range_to_cidrs
gen_range_to_cidrs-Covers start end v top =
    gen_loop-Covers (end + 2 - start) start end v top (omega arith)
