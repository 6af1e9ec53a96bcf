-- ===== src/Text/Numbers.antt =====
-- The bounds of what the number parsers return.
use shadowvpn_ios.Prelude.{
  ℕ, ◌+◌, ◌-◌, ◌*◌, ◌^◌, ◌≤◌, ◌<◌, ◌≡◌, none, some, List, [], ◌∷◌, arith, Option-cases, ◌⊎◌, inl,
  inr,
}
use shadowvpn_ios.Text.{Text, split, digits_loop, parse_octet, four_octets, parse_ipv4}

digits_loop_le :
    (limit : ℕ) (s : Text) (acc v : ℕ) → acc ≤ limit → digits_loop limit s acc ≡ some v → v ≤ limit
unfolding digits_loop
digits_loop_le limit [] acc v h e = ground arith
digits_loop_le limit (c ∷ s) acc v h e =
    ground (arith, digits_loop_le limit s (acc * 10 + (c - b'0')) v)

parse_octet_le : (s : Text) (v : ℕ) → parse_octet s ≡ some v → v ≤ 255
unfolding parse_octet
parse_octet_le [] v e = absurd (ground arith)
parse_octet_le (c ∷ s) v e = ground (arith, digits_loop_le 255 (c ∷ s) 0 v (omega arith))

octet_cases : (s : Text) → (parse_octet s ≡ none) ⊎ (v : ℕ) × (parse_octet s ≡ some v) × (v ≤ 255)
octet_cases s = elim (Option-cases (parse_octet s)) [
  | inl e ↦ inl e
  | inr (v, e) ↦ inr (v, e, parse_octet_le s v e)
]

four_octets-lt : (parts : List Text) (v : ℕ) → four_octets parts ≡ some v → v < 2 ^ 32
unfolding four_octets
four_octets-lt [] v e = absurd (ground arith)
four_octets-lt (a ∷ []) v e = absurd (ground arith)
four_octets-lt (a ∷ b ∷ []) v e = absurd (ground arith)
four_octets-lt (a ∷ b ∷ c ∷ []) v e = absurd (ground arith)
four_octets-lt (a ∷ b ∷ c ∷ d ∷ []) v e =
    ground (arith, octet_cases a, octet_cases b, octet_cases c, octet_cases d)
four_octets-lt (a ∷ b ∷ c ∷ d ∷ x ∷ rest) v e = absurd (ground arith)

pub parse_ipv4-lt : (s : Text) (v : ℕ) → parse_ipv4 s ≡ some v → v < 2 ^ 32
unfolding parse_ipv4
parse_ipv4-lt s v e = four_octets-lt (split b'.' s) v e
