-- ===== src/Dns/Labels.antt =====
-- vendor/dns.rs: the labels of a name, as text and on the wire.
use shadowvpn_ios.Prelude.{
  ℕ, ◌≤◌, ◌≡◌, ◌≢◌, refl, ap, ◌∙◌, List, [], ◌∷◌, ◌++◌, append_assoc, length, All, arith,
}
use shadowvpn_ios.Text.{split}
use shadowvpn_ios.Text.Utf8.{IsAscii}
use shadowvpn_ios.Dns.{push_labels, join}

-- A label that DNS allows: 1 to 63 ASCII bytes without a dot.
pub record IsLabel (l : List ℕ) : Type 0 where
  pub some_bytes : 1 ≤ length l
  pub short : length l ≤ 63
  pub ascii : All IsAscii l
  pub dotless : All (λ b. b ≢ b'.') l

-- The wire form of labels.
abbrev pub wire : List (List ℕ) → List ℕ
wire [] = 0 ∷ []
wire (l ∷ ls) = length l ∷ (l ++ wire ls)

split_dotless : (l : List ℕ) → All (λ b. b ≢ b'.') l → split b'.' l ≡ l ∷ []
unfolding split
split_dotless [] h = refl
split_dotless (b ∷ l) (hb, h) = ground (arith, split_dotless l h)

split_dot :
    (l rest : List ℕ)
    → All (λ b. b ≢ b'.') l
    → split b'.' (l ++ (b'.' ∷ rest)) ≡ l ∷ split b'.' rest
unfolding split
split_dot [] rest h = refl
split_dot (b ∷ l) rest (hb, h) = ground (arith, split_dot l rest h)

-- Splitting at the dots undoes `join`.
pub split-join :
    (l : List ℕ) (ls : List (List ℕ)) → All IsLabel (l ∷ ls) → split b'.' (join (l ∷ ls)) ≡ l ∷ ls
split-join l [] (h, _) = split_dotless l h.dotless
split-join l (m ∷ ms) (h, hs) =
    split_dot l (join (m ∷ ms)) h.dotless ∙ ap (◌∷◌ l) (split-join m ms hs)

pub push_labels-wire : (ls : List (List ℕ)) → All IsLabel ls → push_labels ls ++ (0 ∷ []) ≡ wire ls
unfolding push_labels
push_labels-wire [] h = refl
push_labels-wire (l ∷ ls) (h, hs) =
    ground (arith, push_labels-wire ls hs, append_assoc l (push_labels ls) (0 ∷ []))
