-- ===== src/Text/Encoding.antt =====
-- `as_bytes`: the encoding of text.
use shadowvpn_ios.Prelude.{ℕ, ◌<◌, ◌∷◌, length, length-append, arith}
use shadowvpn_ios.Text.{Text, utf8, as_bytes}

utf8_pos : (c : ℕ) → 0 < length (utf8 c)
unfolding utf8
utf8_pos c = ground arith

-- Text that is not empty has a byte at least.
pub as_bytes_pos : (c : ℕ) (s : Text) → 0 < length (as_bytes (c ∷ s))
unfolding as_bytes
as_bytes_pos c s = omega (arith, utf8_pos c, length-append (utf8 c) (as_bytes s))
