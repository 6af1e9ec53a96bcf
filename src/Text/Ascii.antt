-- ===== src/Text/Ascii.antt =====
-- ASCII text: its characters are its bytes.
use shadowvpn_ios.Prelude.{
  ℕ, ◌≡◌, refl, sym, inl, ap, ◌∙◌, true, false, [], ◌∷◌, All, arith, if◌then◌else◌,
}
use shadowvpn_ios.Text.{Text, as_bytes, is_whitespace, trim_start, trim_end, trim}
use shadowvpn_ios.Text.Utf8.{IsAscii, chars}
use shadowvpn_ios.Text.Utf8.Decoded.{IsScalar, chars-as_bytes}

pub as_bytes_ascii : (s : Text) → All IsAscii s → as_bytes s ≡ s
unfolding as_bytes
as_bytes_ascii [] h = refl
as_bytes_ascii (c ∷ s) (hc, h) = ground (arith, as_bytes_ascii s h)

pub ascii-IsScalar : (s : Text) → All IsAscii s → All IsScalar s
ascii-IsScalar [] h = tt
ascii-IsScalar (c ∷ s) (hc, h) = ((omega arith, inl (omega arith)), ascii-IsScalar s h)

pub chars_ascii : (s : Text) → All IsAscii s → chars s ≡ s
chars_ascii s h = ap chars (sym (as_bytes_ascii s h)) ∙ (chars-as_bytes s (ascii-IsScalar s h)).1

-- What trimming leaves is made of the same characters.
module _ {ℓ} (P : ℕ → Type ℓ) where
  trim_start-All : (s : Text) → All P s → All P (trim_start s)
  unfolding trim_start
  trim_start-All [] h = h
  trim_start-All (c ∷ s) (hc, h) =
      elim (is_whitespace c) as (λ b. All P (if b then trim_start s else c ∷ s)) [
        | true ↦ trim_start-All s h
        | false ↦ (hc, h)
      ]

  trim_end-All : (s : Text) → All P s → All P (trim_end s)
  unfolding trim_end
  trim_end-All [] h = h
  trim_end-All (c ∷ s) (hc, h) =
      elim (trim_end s)
          as (λ r.
            All P r
            → All P (elim r [ [] ↦ if is_whitespace c then [] else c ∷ [] | d ∷ t ↦ c ∷ d ∷ t ])) [
              | [] ↦ λ _. elim (is_whitespace c) as (λ b. All P (if b then [] else c ∷ [])) [
                | true ↦ tt
                | false ↦ (hc, tt)
              ]
              | d ∷ t ↦ λ more. (hc, more)
            ]
        (trim_end-All s h)

  pub trim-All : (s : Text) → All P s → All P (trim s)
  unfolding trim
  trim-All s h = trim_end-All (trim_start s) (trim_start-All s h)
