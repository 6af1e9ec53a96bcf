-- ===== src/Prelude/Bytes.antt =====
-- Bytes as numbers, big-endian fields (`u16::from_be_bytes`, `to_be_bytes`), and tables of byte facts.
use Prim.Native.Nat.{ℕ, zero, suc, ◌+◌, ◌*◌, ◌/◌, ◌%◌, ◌^◌, ◌<◌, bit_and, bit_or}
use mathlib.Core.Path.{◌≡◌, refl}
use mathlib.Core.Bool.{Bool, true, false}
use mathlib.Core.List.{List, [], ◌∷◌}
use mathlib.Core.Logic.{ite}
use native.Mathlib.Decide.{ℕ_discrete}
use native.Mathlib.Omega.{arith}

abbrev pub IsByte : ℕ → Type 0
IsByte b = b < 256

abbrev pub be16 : ℕ → ℕ → ℕ
be16 hi lo = hi * 256 + lo

abbrev pub be32 : ℕ → ℕ → ℕ → ℕ → ℕ
be32 a b c d = a * 2 ^ 24 + b * 2 ^ 16 + c * 2 ^ 8 + d

abbrev pub to_be16 : ℕ → List ℕ
to_be16 n = (n / 256 % 256) ∷ (n % 256) ∷ []

pub be16-to_be16 : (n : ℕ) → n < 65536 → be16 (n / 256 % 256) (n % 256) ≡ n
be16-to_be16 n h = omega arith

-- To prove an equation of functions on a small range by evaluation.
module _ (f g : ℕ → ℕ) where
  unfoldable pub agree_below : ℕ → Bool
  unfolding ℕ_discrete
  agree_below zero = true
  agree_below (suc n) = ite (ℕ_discrete (f n) (g n)) (agree_below n) false

  pub agree_below→eq : (n : ℕ) → agree_below n ≡ true → (i : ℕ) → i < n → f i ≡ g i
  unfolding agree_below
  agree_below→eq zero e i h = absurd (omega arith)
  agree_below→eq (suc n) e i h = ground (arith, agree_below→eq n (ground arith) i)

pub bit_and_c0 : (b : ℕ) → b < 256 → bit_and b 0xC0 ≡ b / 64 * 64
unfolding agree_below
bit_and_c0 = agree_below→eq _ _ 256 refl

pub bit_and_80 : (b : ℕ) → b < 256 → bit_and b 0x80 ≡ b / 128 * 128
unfolding agree_below
bit_and_80 = agree_below→eq _ _ 256 refl

pub bit_and_40 : (b : ℕ) → b < 256 → bit_and b 0x40 ≡ b / 64 % 2 * 64
unfolding agree_below
bit_and_40 = agree_below→eq _ _ 256 refl

pub bit_and_3f : (b : ℕ) → b < 256 → bit_and b 0x3F ≡ b % 64
unfolding agree_below
bit_and_3f = agree_below→eq _ _ 256 refl

pub bit_and_3c : (b : ℕ) → b < 256 → bit_and b 0x3C ≡ b / 4 % 16 * 4
unfolding agree_below
bit_and_3c = agree_below→eq _ _ 256 refl

pub bit_and_0f : (b : ℕ) → b < 256 → bit_and b 0x0f ≡ b % 16
unfolding agree_below
bit_and_0f = agree_below→eq _ _ 256 refl

pub bit_and_03 : (b : ℕ) → b < 256 → bit_and b 0x03 ≡ b % 4
unfolding agree_below
bit_and_03 = agree_below→eq _ _ 256 refl

-- The masks of the QUIC first byte: any random byte gives a short header with the length field 1.
pub short_header_byte :
    (r : ℕ) → r < 256 → bit_or (bit_or 0x40 (bit_and r 0x3C)) 0x01 ≡ 65 + r / 4 % 16 * 4
unfolding agree_below
short_header_byte = agree_below→eq _ _ 256 refl
