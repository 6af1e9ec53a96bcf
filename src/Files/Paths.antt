-- ===== src/Files/Paths.antt =====
-- Paths that are built from a directory and a name.
use mathlib.Core.List.{reverse, reverse-append, reverse-reverse}
use shadowvpn_ios.Prelude.{
  ℕ, ◌≡◌, ◌≢◌, refl, sym, ap, ◌∙◌, true, false, inl, inr, Option, some, List, [], ◌∷◌, ◌++◌, ◌+◌,
  append_assoc, length, length-append, Bool-cases, ◌==◌, arith,
}
use shadowvpn_ios.Text.{Text, codes, text_eq}
use shadowvpn_ios.Files.{Disk, put, with_extension, drop_extension, path_join, ends_in_slash}

pub text_eq_self : (s : Text) → text_eq s s ≡ true
text_eq_self [] = refl
text_eq_self (c ∷ s) = ground (arith, text_eq_self s)

pub text_eq-length : (s t : Text) → length s ≢ length t → text_eq s t ≡ false
text_eq-length [] [] h = absurd (h refl)
text_eq-length [] (d ∷ t) h = refl
text_eq-length (c ∷ s) [] h = refl
text_eq-length (c ∷ s) (d ∷ t) h =
    let ih = text_eq-length s t (λ e. h (omega arith)) in ground arith

drop_extension-txt :
    (d : ℕ) (s : Text)
    → (d == b'/') ≡ false
    → drop_extension (reverse (codes ".txt") ++ d ∷ s) ≡ some (d ∷ s)
unfolding drop_extension
drop_extension-txt d s h = rw h

-- A name with the extension `txt` takes another extension in its place.
pub with_extension-txt :
    (pre extension : Text) (d : ℕ)
    → (d == b'/') ≡ false
    → with_extension (pre ++ d ∷ codes ".txt") extension ≡ (pre ++ d ∷ []) ++ b'.' ∷ extension
unfolding with_extension
with_extension-txt pre extension d h =
    let cut : drop_extension (reverse (pre ++ d ∷ codes ".txt")) ≡ some (d ∷ reverse pre) =
      ap drop_extension (reverse-append pre (d ∷ codes ".txt"))
      ∙ drop_extension-txt d (reverse pre) h in
    rw (cut, with_extension)
      (ap (λ s. s ++ b'.' ∷ extension)
        (reverse-append (d ∷ []) (reverse pre) ∙ ap (λ s. s ++ d ∷ []) (reverse-reverse pre)))

-- A path in a directory ends in the name.
pub path_join_lem : (dir name : Text) → (pre : Text) × (path_join dir name ≡ pre ++ name)
unfolding path_join
path_join_lem [] name = ([], refl)
path_join_lem (c ∷ dir) name = elim (Bool-cases (ends_in_slash (c ∷ dir))) [
  | inl e ↦ (c ∷ dir, rw e)
  | inr e ↦ ((c ∷ dir) ++ b'/' ∷ [], rw e (sym (append_assoc (c ∷ dir) (b'/' ∷ []) name)))
]

pub put_same :
    (path : Text) (content : Option (List ℕ)) (disk : Disk) → put path content disk path ≡ content
unfolding put
put_same path content disk = rw (text_eq_self path)

pub put_other :
    (path p : Text) (content : Option (List ℕ)) (disk : Disk)
    → text_eq p path ≡ false
    → put path content disk p ≡ disk p
unfolding put
put_other path p content disk h = rw h

-- Two names in one directory give paths that differ in length as the names do.
pub length-path_join :
    (dir s t : Text) → length (path_join dir s) + length t ≡ length (path_join dir t) + length s
unfolding path_join
length-path_join [] s t = omega arith
length-path_join (c ∷ dir) s t = elim (Bool-cases (ends_in_slash (c ∷ dir))) [
  | inl e ↦ rw e (omega (arith, length-append (c ∷ dir) s, length-append (c ∷ dir) t))
  | inr e ↦
      rw e (omega (arith, length-append (c ∷ dir) (b'/' ∷ s), length-append (c ∷ dir) (b'/' ∷ t)))
]
