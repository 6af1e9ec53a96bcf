-- ===== src/Text/Print/LineByLine.antt =====
-- `lines`, on text that was written line by line.
use shadowvpn_ios.Prelude.{ℕ, ◌≡◌, refl, false, [], ◌∷◌, ◌++◌, All, ◌==◌}
use shadowvpn_ios.Text.{Text, push_first}
use shadowvpn_ios.Text.Print.{line_feed, carriage_return, lines}

-- Neither a line feed nor a carriage return.
abbrev pub IsInline : ℕ → Type 0
IsInline c = ((c == line_feed) ≡ false) × ((c == carriage_return) ≡ false)

-- A line without line breaks is read back, and then what follows its line feed.
pub lines-append : (s t : Text) → All IsInline s → lines (s ++ line_feed ∷ t) ≡ s ∷ lines t
unfolding lines push_first
lines-append [] t h = refl
lines-append (c ∷ s) t ((hf, hr), h) = rw (hf, hr, lines-append s t h)
