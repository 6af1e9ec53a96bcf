-- ===== src/Prelude/Outcome.antt =====
-- Fallible computations of the Rust code: `Some(a)` or a plain result is `ret a`, an early `None` is
-- `nothing`, and a slice index out of range, which aborts the process, is `panic`.
use Prim.Native.Nat.{ℕ, ◌<◌}
use mathlib.Core.Path.{◌≡◌, refl, subst}
use mathlib.Core.Logic.{◌≢◌}
use mathlib.Core.List.{List, [], ◌∷◌}
use mathlib.Core.Option.{none, some}
use native.Mathlib.Omega.{arith}
use shadowvpn_ios.Prelude.Lists.{length, get_elem?}
use shadowvpn_ios.Prelude.Tests.{if◌then◌else◌}
use mathlib.Core.Bool.{Bool, true, false}

pub data Outcome {ℓ} (A : Type ℓ) : Type ℓ where
  ret : A → Outcome A
  nothing : Outcome A
  panic : Outcome A

infixl 5 ◌>>=◌
abbrev pub ◌>>=◌ {ℓ κ} : {A : Type ℓ} {B : Type κ} → Outcome A → (A → Outcome B) → Outcome B
ret a >>= f = f a
nothing >>= f = nothing
panic >>= f = panic

-- `match m { Some(a) => f(a), None => return d }`
abbrev pub on_none {ℓ κ} :
    {A : Type ℓ} {B : Type κ} → Outcome A → Outcome B → (A → Outcome B) → Outcome B
on_none (ret a) d f = f a
on_none nothing d f = d
on_none panic d f = panic

-- A result that is only looked at: what is left of it is whether it panics.
abbrev pub discard {ℓ} : {A : Type ℓ} → Outcome A → Outcome (Unit {0})
discard (ret a) = ret tt
discard nothing = ret tt
discard panic = panic

-- `msg[i]`
unfoldable pub index : List ℕ → ℕ → Outcome ℕ
index msg i = elim (get_elem? msg i) [ none ↦ panic | some b ↦ ret b ]

-- `msg.get(i)?`
unfoldable pub get : List ℕ → ℕ → Outcome ℕ
get msg i = elim (get_elem? msg i) [ none ↦ nothing | some b ↦ ret b ]

get_elem?-lt : (xs : List ℕ) (i : ℕ) → i < length xs → (b : ℕ) × (get_elem? xs i ≡ some b)
get_elem?-lt [] i h = absurd (omega arith)
get_elem?-lt (x ∷ xs) ℕ.zero h = (x, refl)
get_elem?-lt (x ∷ xs) (ℕ.suc i) h = get_elem?-lt xs i (omega arith)

-- An index in range returns a byte.
pub index-lt : (xs : List ℕ) (i : ℕ) → i < length xs → (b : ℕ) × (index xs i ≡ ret b)
unfolding index
index-lt xs i h = let (b, e) = get_elem?-lt xs i h in (b, rw (e, index))

abbrev pub Safe {ℓ} : {A : Type ℓ} → Outcome A → Type ℓ
Safe m = m ≢ panic

module _ {ℓ} {A : Type ℓ} where
  pub ret-Safe : (a : A) → Safe (ret a)
  ret-Safe a e = cc

  pub nothing-Safe : Safe {A = A} nothing
  nothing-Safe e = cc

  pub if-Safe :
      (b : Bool) {x y : Outcome A}
      → (b ≡ true → Safe x)
      → (b ≡ false → Safe y)
      → Safe (if b then x else y)
  if-Safe true hx hy = hx refl
  if-Safe false hx hy = hy refl

  pub index-Safe :
      (msg : List ℕ) (i : ℕ) {f : ℕ → Outcome A}
      → i < length msg
      → ((b : ℕ) → Safe (f b))
      → Safe (index msg i >>= f)
  index-Safe msg i {f} h k = let (b, e) = index-lt msg i h in rw e (k b)

  pub bind-Safe {κ} :
      {B : Type κ} (m : Outcome B) {f : B → Outcome A}
      → Safe m
      → ((b : B) → m ≡ ret b → Safe (f b))
      → Safe (m >>= f)
  bind-Safe (ret b) h k = k b refl
  bind-Safe nothing h k = nothing-Safe
  bind-Safe panic h k = absurd (h refl)

  pub on_none-Safe {κ} :
      {B : Type κ} (m : Outcome B) {d : Outcome A} {f : B → Outcome A}
      → Safe m
      → Safe d
      → ((b : B) → Safe (f b))
      → Safe (on_none m d f)
  on_none-Safe (ret b) h k l = l b
  on_none-Safe nothing h k l = k
  on_none-Safe panic h k l = absurd (h refl)

pub discard-Safe {ℓ} : {A : Type ℓ} (m : Outcome A) → Safe m → discard m ≡ ret tt
discard-Safe (ret a) h = refl
discard-Safe nothing h = refl
discard-Safe panic h = absurd (h refl)

pub ret_injective {ℓ} : {A : Type ℓ} {a b : A} → ret a ≡ ret b → a ≡ b
ret_injective e = cc

-- What a computation returns, if it returns, satisfies `P`.
abbrev pub Returns {ℓ κ} : {A : Type ℓ} → (A → Type κ) → Outcome A → Type (ℓ ⊔ κ)
Returns {A} P m = (a : A) → m ≡ ret a → P a

module _ {ℓ κ} {A : Type ℓ} (P : A → Type κ) where
  pub nothing-Returns : Returns P nothing
  nothing-Returns a e = cc

  pub if-Returns :
      (b : Bool) {x y : Outcome A}
      → (b ≡ true → Returns P x)
      → (b ≡ false → Returns P y)
      → Returns P (if b then x else y)
  if-Returns true hx hy = hx refl
  if-Returns false hx hy = hy refl

  pub bind-Returns {ι} :
      {B : Type ι} (m : Outcome B) {f : B → Outcome A}
      → ((b : B) → m ≡ ret b → Returns P (f b))
      → Returns P (m >>= f)
  bind-Returns (ret b) k = k b refl
  bind-Returns nothing k = λ a e. cc
  bind-Returns panic k = λ a e. cc

  pub ret-Returns : (a : A) → P a → Returns P (ret a)
  ret-Returns a h b e = subst P (ret_injective e) h
