-- ===== src/Memory/Reported.antt =====
-- rss.rs: what is reported of what the kernel wrote.
use shadowvpn_ios.Prelude.{
  ℕ, ◌+◌, ◌*◌, ◌/◌, ◌%◌, ◌^◌, ◌≤◌, ◌<◌, ◌≡◌, List, ◌∷◌, length, drop, replicate, length-append,
  length-drop, length-replicate, arith,
}
use shadowvpn_ios.Memory.{count, info_after, F64}

-- A struct as the kernel fills it.
pub record TaskInfo : Type 0 where
  pub virtual_size : ℕ
  pub resident : ℕ
  pub rest : List ℕ

abbrev pub words : TaskInfo → List ℕ
words t =
    (t.virtual_size % 2 ^ 32)
    ∷ (t.virtual_size / 2 ^ 32)
    ∷ (t.resident % 2 ^ 32)
    ∷ (t.resident / 2 ^ 32)
    ∷ t.rest

-- The call leaves a struct of `count` words where the kernel writes no more than that.
length-info_after :
    (written : List ℕ) → length written ≤ count → length (info_after written) ≡ count
unfolding info_after
length-info_after written h =
    let zeros : List ℕ = replicate count 0 in
    omega (
      arith,
      length-append written (drop (length written) zeros),
      length-drop (length written) zeros,
      length-replicate {A = ℕ} count 0,
    )

-- The float is `mib` MiB of `bytes`, with a relative error of 2^-53 at most.
abbrev pub Measures : F64 → ℕ → Type 0
Measures mib bytes =
    (0 < mib.den)
    × (mib.num * 2 ^ 20 ≤ (bytes + bytes / 2 ^ 53) * mib.den)
    × (bytes * mib.den ≤ mib.num * 2 ^ 20 + bytes / 2 ^ 53 * mib.den)
