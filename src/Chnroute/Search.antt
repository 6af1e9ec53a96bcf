-- ===== src/Chnroute/Search.antt =====
-- policy/chnroute.rs: the binary search over the starts of a table.
use native.Mathlib.Decide.{dec_lt}
use shadowvpn_ios.Prelude.{
  ℕ, zero, suc, ◌+◌, ◌-◌, ◌/◌, ◌≤◌, ◌<◌, ◌≡◌, ◌≢◌, refl, ap, ◌↔◌, ◌⊎◌, inl, inr, true, List, [],
  ◌∷◌, length, get_or, leb, if◌then◌else◌, arith,
}
use shadowvpn_ios.Chnroute.{Range, search_loop, judge, binary_search, verdict, Covers}
use shadowvpn_ios.Chnroute.Merge.{Separated}

-- How many ranges start at `v` or before.
starts_upto : ℕ → List Range → ℕ
starts_upto v [] = 0
starts_upto v ((s, e) ∷ rs) = if leb s v then suc (starts_upto v rs) else 0

abbrev start_at : List Range → ℕ → ℕ
start_at rs i = (get_or rs i (0, 0)).0

abbrev end_at : List Range → ℕ → ℕ
end_at rs i = (get_or rs i (0, 0)).1

starts_upto-le : (v : ℕ) (rs : List Range) → starts_upto v rs ≤ length rs
unfolding starts_upto
starts_upto-le v [] = omega arith
starts_upto-le v ((s, e) ∷ rs) = ground (arith, starts_upto-le v rs)

starts_upto_above : (v lo : ℕ) (rs : List Range) → Separated lo rs → v < lo → starts_upto v rs ≡ 0
unfolding starts_upto
starts_upto_above v lo [] h p = refl
starts_upto_above v lo ((s, e) ∷ rs) h p = ground arith

start_at-ge :
    (lo : ℕ) (rs : List Range) (i : ℕ) → Separated lo rs → i < length rs → lo ≤ start_at rs i
start_at-ge lo [] i h p = absurd (omega arith)
start_at-ge lo ((s, e) ∷ rs) zero h p = h.0
start_at-ge lo ((s, e) ∷ rs) (suc i) h p =
    omega (arith, start_at-ge (e + 2) rs i h.2 (omega arith), h.0, h.1)

-- The starts ascend, so the ones up to `v` stand in front.
start_at_cases :
    (v lo : ℕ) (rs : List Range) (i : ℕ)
    → Separated lo rs
    → i < length rs
    → (start_at rs i ≤ v) × (i < starts_upto v rs) ⊎ (v < start_at rs i) × (starts_upto v rs ≤ i)
unfolding starts_upto
start_at_cases v lo [] i h p = absurd (omega arith)
start_at_cases v lo ((s, e) ∷ rs) zero h p = ground arith
start_at_cases v lo ((s, e) ∷ rs) (suc i) h p = ground (
  arith,
  start_at_cases v (e + 2) rs i h.2 (omega arith),
  start_at-ge (e + 2) rs i h.2 (omega arith),
)

-- What the halving loop ends with: the one candidate is the last start up to `v`, or the first range.
abbrev IsLast : List Range → ℕ → ℕ → Type 0
IsLast rs v b = (b < length rs) × (starts_upto v rs ≤ b + 1) × ((b < starts_upto v rs) ⊎ (b ≡ 0))

search_loop_lem :
    (fuel : ℕ) (rs : List Range) (v size base lo : ℕ)
    → Separated lo rs
    → size ≤ fuel
    → 1 ≤ size
    → base + size ≤ length rs
    → starts_upto v rs ≤ base + size
    → (base < starts_upto v rs) ⊎ (base ≡ 0)
    → IsLast rs v (search_loop fuel rs v size base)
unfolding search_loop
search_loop_lem zero rs v size base lo h f p l c d = absurd (omega arith)
search_loop_lem (suc fuel) rs v size base lo h f p l c d = elim (dec_lt 1 size) [
  | yes q ↦ elim (dec_lt v (start_at rs (base + size / 2))) [
    | yes left ↦ ground (
      arith,
      start_at_cases v lo rs (base + size / 2) h (omega arith),
      search_loop_lem fuel rs v (size - size / 2) base lo h (omega arith) (omega arith)
          (omega arith) (omega (arith, start_at_cases v lo rs (base + size / 2) h (omega arith))) d,
    )
    | no right ↦ ground (
      arith,
      start_at_cases v lo rs (base + size / 2) h (omega arith),
      search_loop_lem fuel rs v (size - size / 2) (base + size / 2) lo h (omega arith) (omega arith)
          (omega arith) (omega arith)
          (inl (omega (arith, start_at_cases v lo rs (base + size / 2) h (omega arith)))),
    )
  ]
  | no q ↦ ground arith
]

end_at-cons :
    (s e : ℕ) (rs : List Range) (k : ℕ) → k ≢ 0 → end_at ((s, e) ∷ rs) k ≡ end_at rs (k - 1)
end_at-cons s e rs zero h = absurd (h refl)
end_at-cons s e rs (suc k) h = ap (end_at rs) (omega arith)

Covers-above : (v lo : ℕ) (rs : List Range) → Separated lo rs → v < lo → Covers rs v → ⊥
Covers-above v lo [] h p c = c
Covers-above v lo ((s, e) ∷ rs) h p c = ground (arith, Covers-above v (e + 2) rs h.2)

-- Of a table whose ranges are apart, the last range that starts up to `v` decides.
Covers-last :
    (v lo : ℕ) (rs : List Range)
    → Separated lo rs
    → Covers rs v ↔ ((0 < starts_upto v rs) × (v ≤ end_at rs (starts_upto v rs - 1)))
unfolding starts_upto
Covers-last v lo [] h = (λ c. absurd c, λ c. absurd (omega arith))
Covers-last v lo ((s, e) ∷ rs) h =
    let (to, from) = Covers-last v (e + 2) rs h.2 in
    let above = Covers-above v (e + 2) rs h.2 in
    (
      ground (
        arith,
        to,
        above,
        starts_upto_above v (e + 2) rs h.2,
        end_at-cons s e rs (starts_upto v rs),
      ),
      ground
          (arith, from, starts_upto_above v (e + 2) rs h.2, end_at-cons s e rs (starts_upto v rs)),
    )

end_at-ge : (lo : ℕ) (rs : List Range) (i : ℕ) → Separated lo rs → start_at rs i ≤ end_at rs i
end_at-ge lo [] i h = omega arith
end_at-ge lo ((s, e) ∷ rs) zero h = h.1
end_at-ge lo ((s, e) ∷ rs) (suc i) h = end_at-ge (e + 2) rs i h.2

-- What `contains` reads off the last comparison, for a table whose ranges are apart.
judge_last :
    (v lo : ℕ) (rs : List Range) (b : ℕ)
    → Separated lo rs
    → IsLast rs v b
    → (verdict rs v (judge rs v b) ≡ true)
      ↔ ((0 < starts_upto v rs) × (v ≤ end_at rs (starts_upto v rs - 1)))
unfolding judge verdict
judge_last v lo rs b h l = elim (dec_lt v (start_at rs b)) [
  | yes after ↦
      let facts = start_at_cases v lo rs b h l.0 in
      let e : starts_upto v rs ≡ 0 = omega (arith, facts, l.2) in
      (ground (arith, e, l.2), ground (arith, e))
  | no upto ↦
      let facts = start_at_cases v lo rs b h l.0 in
      let e : starts_upto v rs - 1 ≡ b = omega (arith, facts, l.1) in
      let e' : b + 1 - 1 ≡ b = omega arith in
      rw e (
        ground (arith, facts, end_at-ge lo rs b h, e'),
        ground (arith, facts, end_at-ge lo rs b h, e'),
      )
]

-- The search of a table whose ranges are apart decides whether one of them holds the address.
pub verdict-binary_search :
    (v lo : ℕ) (rs : List Range)
    → Separated lo rs
    → (verdict rs v (binary_search rs v) ≡ true) ↔ Covers rs v
unfolding binary_search
verdict-binary_search v lo [] h = unfold verdict in (λ c. cc, λ c. absurd c)
verdict-binary_search v lo (r ∷ rs) h =
    let size = suc (length rs) in
    let last =
      search_loop_lem size (r ∷ rs) v size 0 lo h (omega arith) (omega arith) (omega arith)
        (omega (arith, starts_upto-le v (r ∷ rs))) (inr refl) in
    let (to, from) = judge_last v lo (r ∷ rs) (search_loop size (r ∷ rs) v size 0) h last in
    let (to', from') = Covers-last v lo (r ∷ rs) h in (λ c. from' (to c), λ c. from (to' c))
