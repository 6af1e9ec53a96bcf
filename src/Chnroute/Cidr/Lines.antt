-- ===== src/Chnroute/Cidr/Lines.antt =====
-- policy/chnroute.rs, `from_lines` and `parse_cidr`: tables that are loaded from text.
use native.Mathlib.Nat.{
  div-mul-le_self, div-lt_iff_lt-mul, div-eq_of_lt-le, mul-le-mul_right, pow-le-pow_right,
}
use shadowvpn_ios.Prelude.{
  ℕ, ◌+◌, ◌-◌, ◌*◌, ◌/◌, ◌^◌, ◌≤◌, ◌<◌, ◌≡◌, ◌↔◌, ◌⊎◌, inl, inr, sym, ap, ◌∙◌, subst, true, Option,
  none, some, List, [], ◌∷◌, All, Any, arith, Option-cases, pow_split,
}
use shadowvpn_ios.Text.{Text, trim, split_once, parse_u32, parse_ipv4}
use shadowvpn_ios.Text.Numbers.{parse_ipv4-lt}
use shadowvpn_ios.Chnroute.{Range, from_ranges, contains, Covers}
use shadowvpn_ios.Chnroute.Cidr.{block, parse_parts, parse_cidr, parse_lines, from_lines}
use shadowvpn_ios.Chnroute.Merge.{IsRange}
use shadowvpn_ios.Chnroute.Lookup.{contains-from_ranges}

-- Blocks of one size tile the address space.
size_divides : (len : ℕ) → len ≤ 32 → 2 ^ len * 2 ^ (32 - len) ≡ 2 ^ 32
size_divides len h =
    let e : len + (32 - len) ≡ 32 = omega arith in pow_split len (32 - len) ∙ ap (◌^◌ 2) e

size_pos : (n : ℕ) → 1 ≤ 2 ^ n
size_pos n = pow-le-pow_right {n = 2} (omega arith) {i = 0} {j = n} (omega arith)

-- The addresses of a block are those that agree with `base` in the first `len` bits.
pub block_lem :
    (base len v : ℕ)
    → ((block base len).0 ≤ v) × (v ≤ (block base len).1)
      ↔ (v / 2 ^ (32 - len) ≡ base / 2 ^ (32 - len))
unfolding block
block_lem base len v =
    let pos = size_pos (32 - len) in
    (
      λ (lo, hi). div-eq_of_lt-le (2 ^ (32 - len)) lo (omega arith),
      λ e.
          let below : v < (base / 2 ^ (32 - len) + 1) * 2 ^ (32 - len) =
            (div-lt_iff_lt-mul pos).0 (omega (arith, e)) in
          (subst (λ q. q * 2 ^ (32 - len) ≤ v) e (div-mul-le_self v (2 ^ (32 - len))), omega arith),
    )

block-IsRange : (base len : ℕ) → base < 2 ^ 32 → len ≤ 32 → IsRange (block base len)
unfolding block
block-IsRange base len hb hl =
    let size = 2 ^ (32 - len) in
    let whole = size_divides len hl in
    let q = base / size in
    let within : q < 2 ^ len =
      (div-lt_iff_lt-mul (size_pos (32 - len))).1 (subst (λ n. base < n) (sym whole) hb) in
    let fits : (q + 1) * size ≤ 2 ^ len * size = mul-le-mul_right size (omega arith) in
    (omega arith, omega (arith, size_pos (32 - len)))

some_injective : {a b : Range} → some a ≡ some b → a ≡ b
some_injective e = cc

none-some : {a : Range} → none ≡ some a → ⊥
none-some e = cc

-- A line parses to the block of an address and a prefix length.
abbrev IsBlock : Option Range → Type 0
IsBlock none = Unit
IsBlock (some r) = (base : ℕ) × (len : ℕ) × (base < 2 ^ 32) × (len ≤ 32) × (r ≡ block base len)

parse_parts-IsBlock :
    (parts : Text × Text) (r : Range) → parse_parts parts ≡ some r → IsBlock (some r)
unfolding parse_parts
parse_parts-IsBlock (addr, len_text) r h = elim (Option-cases (parse_ipv4 (trim addr))) [
  | inl e ↦ absurd (ground (arith, e))
  | inr (base, e) ↦ elim (Option-cases (parse_u32 (trim len_text))) [
    | inl f ↦ absurd (ground (arith, e, f))
    | inr (len, f) ↦
        (base, len, parse_ipv4-lt (trim addr) base e, ground (arith, e, f), ground (arith, e, f))
  ]
]

parse_cidr-IsBlock : (line : Text) (r : Range) → parse_cidr line ≡ some r → IsBlock (some r)
unfolding parse_cidr
parse_cidr-IsBlock line r h = elim (Option-cases (split_once b'/' (trim line))) [
  | inl f ↦ absurd (ground (arith, f))
  | inr (parts, f) ↦ parse_parts-IsBlock parts r (ground (arith, f))
]

-- A line parses to nothing, or to a block.
line_cases :
    (line : Text)
    → (parse_cidr line ≡ none)
      ⊎ (base : ℕ) × (len : ℕ) × (base < 2 ^ 32)
        × (len ≤ 32)
        × (parse_cidr line ≡ some (block base len))
line_cases line = elim (Option-cases (parse_cidr line)) [
  | inl e ↦ inl e
  | inr (r, e) ↦
      let (base, len, hb, hl, f) = parse_cidr-IsBlock line r e in
      inr (base, len, hb, hl, e ∙ ap some f)
]

pub parse_lines_skip :
    (line : Text) (lines : List Text)
    → parse_cidr line ≡ none
    → parse_lines (line ∷ lines) ≡ parse_lines lines
unfolding parse_lines
parse_lines_skip line lines e = ground (arith, e)

pub parse_lines_keep :
    (line : Text) (lines : List Text) (r : Range)
    → parse_cidr line ≡ some r
    → parse_lines (line ∷ lines) ≡ r ∷ parse_lines lines
unfolding parse_lines
parse_lines_keep line lines r e = ground (arith, e)

parse_lines-All : (lines : List Text) → All IsRange (parse_lines lines)
unfolding parse_lines
parse_lines-All [] = tt
parse_lines-All (line ∷ lines) = elim (line_cases line) [
  | inl e ↦ subst (All IsRange) (sym (parse_lines_skip line lines e)) (parse_lines-All lines)
  | inr (base, len, hb, hl, e) ↦
      subst (All IsRange) (sym (parse_lines_keep line lines (block base len) e))
        (block-IsRange base len hb hl, parse_lines-All lines)
]

-- The line is a block, and `v` agrees with its address in the first `len` bits.
abbrev pub Lists : ℕ → Text → Type 0
Lists v line =
    (base : ℕ) × (len : ℕ) × (parse_cidr line ≡ some (block base len))
    × (len ≤ 32)
    × (v / 2 ^ (32 - len) ≡ base / 2 ^ (32 - len))

Lists-block :
    (base len v : ℕ) (line : Text)
    → len ≤ 32
    → parse_cidr line ≡ some (block base len)
    → Lists v line
    → ((block base len).0 ≤ v) × (v ≤ (block base len).1)
Lists-block base len v line hl e (base', len', f, hl', g) =
    subst (λ r. (r.0 ≤ v) × (v ≤ r.1)) (some_injective (sym f ∙ e)) ((block_lem base' len' v).1 g)

parse_lines-Covers :
    (lines : List Text) (v : ℕ) → Covers (parse_lines lines) v ↔ Any (Lists v) lines
unfolding parse_lines
parse_lines-Covers [] v = (λ h. h, λ h. h)
parse_lines-Covers (line ∷ lines) v =
    let (to, from) = parse_lines-Covers lines v in
    let covers = λ (rs : List Range). Covers rs v in
    elim (line_cases line) [
      | inl e ↦
          let skip = parse_lines_skip line lines e in
          (
            λ h. inr (to (subst covers skip h)),
            λ h. subst covers (sym skip) (
                from (elim h [
                  | inl (base, len, f, hl, g) ↦ absurd (none-some (sym e ∙ f))
                  | inr h ↦ h
                ])),
          )
      | inr (base, len, hb, hl, e) ↦
          let keep = parse_lines_keep line lines (block base len) e in
          (
            λ h. elim (subst covers keep h) [
              | inl c ↦ inl (base, len, e, hl, (block_lem base len v).0 c)
              | inr c ↦ inr (to c)
            ],
            λ h. subst covers (sym keep) (elim h [
              | inl c ↦ inl (Lists-block base len v line hl e c)
              | inr c ↦ inr (from c)
            ]),
          )
    ]

-- A table loaded from lines contains what their ranges cover.
pub from_lines-Covers :
    (lines : List Text) (v : ℕ)
    → (contains (from_lines lines) v ≡ true) ↔ Covers (parse_lines lines) v
unfolding from_lines from_ranges
from_lines-Covers lines v = contains-from_ranges (parse_lines lines) v (parse_lines-All lines)

-- A table loaded from lines of text contains an address exactly when a line `a.b.c.d/len` of it agrees
-- with the address in the first `len` bits: comments, blank lines and lines that do not parse add
-- nothing, and sorting, merging and the binary search neither lose nor add an address.
contains-from_lines :
    (lines : List Text) (v : ℕ) → (contains (from_lines lines) v ≡ true) ↔ Any (Lists v) lines
contains-from_lines lines v =
    let (to, from) = from_lines-Covers lines v in
    let (to', from') = parse_lines-Covers lines v in (λ c. to' (to c), λ c. from (from' c))
