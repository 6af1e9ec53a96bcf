-- ===== src/Country/Termination.antt =====
-- country.rs, `range_to_cidrs`: the rounds of its loop.
use shadowvpn_ios.Prelude.{
  ℕ, zero, suc, ◌+◌, ◌-◌, ◌^◌, ◌≤◌, ◌≡◌, refl, ap, Bool, true, false, List, [], ◌∷◌, length, ltb,
  if◌then◌else◌, arith,
}
use shadowvpn_ios.Country.{Cidr, cidrs_loop, range_to_cidrs}
use shadowvpn_ios.Country.Blocks.{bits, pow_pos}

same_rest :
    (stops : Bool) (xs ys : List Cidr)
    → (stops ≡ false → xs ≡ ys)
    → (if stops then [] else xs) ≡ (if stops then [] else ys)
same_rest true xs ys h = refl
same_rest false xs ys h = h refl

loops_agree :
    (f g start end : ℕ)
    → start ≤ end
    → end + 1 - start ≤ f
    → end + 1 - start ≤ g
    → cidrs_loop f start end ≡ cidrs_loop g start end
unfolding cidrs_loop
loops_agree zero g start end le hf hg = absurd (omega arith)
loops_agree (suc f) zero start end le hf hg = absurd (omega arith)
loops_agree (suc f) (suc g) start end le hf hg =
    let size = bits start (end - start + 1) in
    let next = start + 2 ^ size in
    let pos = pow_pos size in
    ap (◌∷◌ (start, 32 - size)) (
      same_rest (ltb end next) (cidrs_loop f next end) (cidrs_loop g next end)
        (λ e. loops_agree f g next end (ground arith) (omega arith) (omega arith)))

short_rest :
    (stops : Bool) (xs : List Cidr) (n : ℕ)
    → (stops ≡ false → length xs ≤ n)
    → length (if stops then [] else xs) ≤ n
short_rest true xs n h = omega arith
short_rest false xs n h = h refl

cidrs_loop_rounds :
    (fuel start end : ℕ) → start ≤ end → length (cidrs_loop fuel start end) ≤ end + 1 - start
unfolding cidrs_loop
cidrs_loop_rounds zero start end le = omega arith
cidrs_loop_rounds (suc fuel) start end le =
    let next = start + 2 ^ bits start (end - start + 1) in
    let pos = pow_pos (bits start (end - start + 1)) in
    let rest : length (if ltb end next then [] else cidrs_loop fuel next end) ≤ end - start =
      short_rest (ltb end next) (cidrs_loop fuel next end) (end - start) (λ e.
        let inside : next ≤ end = ground arith in
        omega (arith, cidrs_loop_rounds fuel next end inside)) in
    omega (arith, rest)

-- For a range that is not empty, a round for every address is enough: more fuel never gives another
-- result, so the loop stops by its own test; and it makes no more blocks than there are addresses.
pub range_to_cidrs-stops :
    (fuel start end : ℕ)
    → start ≤ end
    → end + 1 - start ≤ fuel
    → (cidrs_loop fuel start end ≡ range_to_cidrs start end)
      × (length (range_to_cidrs start end) ≤ end + 1 - start)
unfolding range_to_cidrs
range_to_cidrs-stops fuel start end le enough = (
  loops_agree fuel (end + 1 - start) start end le enough (omega arith),
  cidrs_loop_rounds (end + 1 - start) start end le,
)
