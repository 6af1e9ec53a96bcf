-- ===== src/Text/Trim.antt =====
-- `trim` and `split_once` on text of known form.
use shadowvpn_ios.Prelude.{
  ℕ, ◌≤◌, ◌≡◌, refl, ap, ◌∙◌, false, some, if◌then◌else◌, [], ◌∷◌, ◌++◌, All, arith, ◌==◌, ==_iff,
}
use shadowvpn_ios.Text.{Text, is_whitespace, trim_start, trim_end, trim, split_once}

abbrev pub IsVisible : ℕ → Type 0
IsVisible c = is_whitespace c ≡ false

-- Visible ASCII: what numbers, addresses and comment marks are made of.
pub visible_lem : (c : ℕ) → 33 ≤ c → c ≤ 126 → IsVisible c
unfolding is_whitespace
visible_lem c lo hi = ground arith

trim_start-visible : (c : ℕ) (s : Text) → IsVisible c → trim_start (c ∷ s) ≡ c ∷ s
unfolding trim_start
trim_start-visible c s h = rw h

trim_end-visible : (s : Text) → All IsVisible s → trim_end s ≡ s
unfolding trim_end
trim_end-visible [] h = refl
trim_end-visible (c ∷ []) (hc, h) = rw hc
trim_end-visible (c ∷ d ∷ s) (hc, h) = rw (trim_end-visible (d ∷ s) h)

-- Text without blanks stays.
pub trim-visible : (s : Text) → All IsVisible s → trim s ≡ s
unfolding trim trim_start
trim-visible [] h = trim_end-visible [] tt
trim-visible (c ∷ s) (hc, h) =
    ap trim_end (trim_start-visible c s hc) ∙ trim_end-visible (c ∷ s) (hc, h)

trim_end-first : (c : ℕ) (s : Text) → IsVisible c → (t : Text) × (trim_end (c ∷ s) ≡ c ∷ t)
unfolding trim_end
trim_end-first c s h =
    elim (trim_end s)
      as (λ r.
        (t : Text) × (elim r [ [] ↦ if is_whitespace c then [] else c ∷ [] | d ∷ t ↦ c ∷ d ∷ t ]
          ≡ c ∷ t)) [ [] ↦ ([], rw h) | d ∷ t ↦ (d ∷ t, refl) ]

-- A first character that is not blank stays.
pub trim-first : (c : ℕ) (s : Text) → IsVisible c → (t : Text) × (trim (c ∷ s) ≡ c ∷ t)
unfolding trim
trim-first c s h =
    let (t, e) = trim_end-first c s h in (t, ap trim_end (trim_start-visible c s h) ∙ e)

pub split_once-append :
    (sep : ℕ) (s t : Text)
    → All (λ c. (c == sep) ≡ false) s
    → split_once sep (s ++ sep ∷ t) ≡ some (s, t)
unfolding split_once
split_once-append sep [] t h = rw ((==_iff sep sep).1 refl)
split_once-append sep (c ∷ s) t (hc, h) = rw (hc, split_once-append sep s t h)
