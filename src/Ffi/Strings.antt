-- ===== src/Ffi/Strings.antt =====
-- lib.rs, `cstr_to_str`: the strings that a caller passes.
use shadowvpn_ios.Prelude.{ℕ, ◌≡◌, refl, ap, false, some, List, [], ◌∷◌, ◌++◌, All, ◌==◌}
use shadowvpn_ios.Text.{Text, as_bytes}
use shadowvpn_ios.Text.Utf8.Decoded.{IsScalar, chars-as_bytes}
use shadowvpn_ios.Ffi.{from_ptr, cstr_to_str}

-- No byte is the NUL.
abbrev pub IsCString : List ℕ → Type 0
IsCString bytes = All (λ b. (b == 0) ≡ false) bytes

pub from_ptr-append : (bytes rest : List ℕ) → IsCString bytes → from_ptr (bytes ++ 0 ∷ rest) ≡ bytes
unfolding from_ptr
from_ptr-append [] rest h = refl
from_ptr-append (b ∷ bytes) rest (hb, h) = rw (hb, from_ptr-append bytes rest h)

-- The C string of a text, with anything behind its NUL, is read as the text.
pub cstr_to_str-as_bytes :
    (s : Text) (rest : List ℕ)
    → All IsScalar s
    → IsCString (as_bytes s)
    → cstr_to_str (some (as_bytes s ++ 0 ∷ rest)) ≡ some s
unfolding cstr_to_str
cstr_to_str-as_bytes s rest scalar nul =
    let (valid, same) = chars-as_bytes s scalar in
    rw (from_ptr-append (as_bytes s) rest nul, valid, cstr_to_str) (ap some same)
