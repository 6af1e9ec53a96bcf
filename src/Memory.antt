-- ===== src/Memory.antt =====
-- core/rust/shadowvpn-ios-ffi/src/rss.rs: the resident size of the process, as the kernel reports it. A
-- struct is the list of its words of 32 bits, low word first in a field of 64 bits.
pub mod Reported
mod Tests
use shadowvpn_ios.Prelude.{
  ℕ, zero, suc, ◌+◌, ◌*◌, ◌/◌, ◌%◌, ◌^◌, ◌≤◌, ◌<◌, ◌≡◌, Bool, ◌&&◌, ◌||◌, Option, none, some, List,
  [], ◌∷◌, ◌++◌, length, drop, get_or, replicate, All, ltb, ◌==◌, if◌then◌else◌,
}

-- `size_of::<MachTaskBasicInfo>()`, by its fields, and `COUNT`.
abbrev pub size_of_info : ℕ
size_of_info = 8 + 8 + 8 + 2 * 4 + 2 * 4 + 4 + 4

abbrev pub count : ℕ
count = size_of_info / 4

-- What `task_info` returns, and the words that it writes to the front of the struct.
pub record Kernel : Type 0 where
  pub rc : ℕ
  pub written : List ℕ

-- The two definitions of `resident_bytes`: Apple targets make the call, others have none.
pub data Platform : Type 0 where
  apple : Kernel → Platform
  elsewhere : Platform

-- The struct after the call; it was all zeros.
pub info_after : List ℕ → List ℕ
info_after written = written ++ drop (length written) (replicate count 0)

-- The field `resident_size`, behind `virtual_size`.
pub resident_size : List ℕ → ℕ
resident_size info = get_or info 2 0 + get_or info 3 0 * 2 ^ 32

unfoldable pub resident_bytes : Platform → Option ℕ
unfolding info_after resident_size
resident_bytes (apple k) = if k.rc == 0 then some (resident_size (info_after k.written)) else none
resident_bytes elsewhere = none

-- The multiple of `k` nearest to `b`, of two the one with an even factor.
pub nearest : ℕ → ℕ → ℕ
nearest k b =
    let q = b / k in
    let r = b % k in if ltb (2 * r) k || (2 * r == k && q % 2 == 0) then q * k else (q + 1) * k

-- `b as f64`: 53 binary digits are kept. A number of 64 bits loses 11 at most.
pub round_loop : ℕ → ℕ → ℕ → ℕ
unfolding nearest
round_loop zero k b = nearest k b
round_loop (suc more) k b =
    let rest = round_loop more (2 * k) b in if ltb b (2 ^ 53 * k) then nearest k b else rest

unfoldable pub as_f64 : ℕ → ℕ
unfolding round_loop
as_f64 b = round_loop 11 1 b

-- A float as an exact fraction. A product of two small powers of two and a quotient by a power of two are
-- floats again, so that neither is rounded.
pub record F64 : Type 0 where
  pub num : ℕ
  pub den : ℕ

abbrev pub whole : ℕ → F64
whole n = record { num = n; den = 1 }

pub mul_f64 : F64 → F64 → F64
mul_f64 a b = record { num = a.num * b.num; den = a.den * b.den }

pub div_f64 : F64 → F64 → F64
div_f64 a b = record { num = a.num * b.den; den = a.den * b.num }

unfoldable pub resident_mib : Platform → Option F64
unfolding mul_f64 div_f64
resident_mib p = elim (resident_bytes p) [
  | none ↦ none
  | some b ↦ some (div_f64 (whole (as_f64 b)) (mul_f64 (whole 1024) (whole 1024)))
]
