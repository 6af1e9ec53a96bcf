-- ===== src/Ffi/Failures.antt =====
-- lib.rs: what a failed call leaves behind.
use shadowvpn_ios.Prelude.{
  ℕ, ◌≡◌, refl, false, List, [], ◌∷◌, ◌++◌, ◌==◌, ==_iff, Bool-cases, inl, inr, arith,
}
use shadowvpn_ios.Text.{Text, as_bytes, utf8}
use shadowvpn_ios.Ffi.{Host, Env, has_nul, to_cstring, set_error, fail}

-- The thread's last error is the message, the other threads' are as they were, and so is the tunnel.
abbrev pub Failed : Env → Text → Host → Host → Type 0
Failed env msg before after =
    (after.last_error env.thread ≡ to_cstring (as_bytes msg))
    × ((t : ℕ) → (t == env.thread) ≡ false → after.last_error t ≡ before.last_error t)
    × (after.process ≡ before.process)

pub set_error-Failed : (env : Env) (msg : Text) (h : Host) → Failed env msg h (set_error env msg h)
unfolding set_error
set_error-Failed env msg h = (rw ((==_iff env.thread env.thread).1 refl), λ t e. rw e, refl)

pub fail-Failed :
    (env : Env) (prefix msg : Text) (h : Host) → Failed env msg h (fail env prefix msg h)
unfolding fail set_error
fail-Failed env prefix msg h = (rw ((==_iff env.thread env.thread).1 refl), λ t e. rw e, refl)

abbrev pub NonEmpty : List ℕ → Type 0
NonEmpty [] = ⊥
NonEmpty (x ∷ xs) = Unit {0}

utf8-NonEmpty : (c : ℕ) (rest : List ℕ) → NonEmpty (utf8 c ++ rest)
unfolding utf8
utf8-NonEmpty c rest = ground arith

-- A message that is not empty leaves a C string that is not, also where it holds a NUL.
pub to_cstring-NonEmpty : (msg : Text) → NonEmpty msg → NonEmpty (to_cstring (as_bytes msg))
unfolding to_cstring as_bytes
to_cstring-NonEmpty [] h = absurd h
to_cstring-NonEmpty (c ∷ s) h = elim (Bool-cases (has_nul (as_bytes (c ∷ s)))) [
  | inl e ↦ rw e tt
  | inr e ↦ rw e (utf8-NonEmpty c (as_bytes s))
]
