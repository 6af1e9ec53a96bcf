-- ===== src/Text/Print/Decimal.antt =====
-- `Display` of numbers and addresses, against `from_str`.
use shadowvpn_ios.Prelude.{
  ℕ, zero, suc, ◌+◌, ◌*◌, ◌/◌, ◌%◌, ◌^◌, ◌≤◌, ◌<◌, ◌≡◌, inl, inr, refl, sym, ap, subst, ◌∙◌, Bool,
  true, false, ◌&&◌, Option, none, some, [], ◌∷◌, ◌++◌, All, All-append, ltb, ◌==◌, if◌then◌else◌,
  arith, Bool-cases, ==_iff,
}
use shadowvpn_ios.Text.{Text, split, push_first, four_octets, parse_octet, parse_ipv4, parse_u32}
use shadowvpn_ios.Text.Print.{digits_of, show_u64, show_ipv4}

abbrev pub IsDigit : ℕ → Type 0
IsDigit c = (48 ≤ c) × (c ≤ 57)

digits_of-All : (fuel n : ℕ) → All IsDigit (digits_of fuel n)
unfolding digits_of
digits_of-All zero n = tt
digits_of-All (suc fuel) n =
    All-append IsDigit (if ltb n 10 then [] else digits_of fuel (n / 10)) ((b'0' + n % 10) ∷ [])
      (elim (Bool-cases (ltb n 10)) [
        | inl e ↦ rw e tt
        | inr e ↦ rw e (digits_of-All fuel (n / 10))
      ])
      (omega arith, tt)

pub show_u64-All : (n : ℕ) → All IsDigit (show_u64 n)
unfolding show_u64
show_u64-All n = digits_of-All 20 n

-- A printed number ends in a digit.
pub show_u64-last : (n : ℕ) → (front : Text) × (d : ℕ) × (show_u64 n ≡ front ++ d ∷ []) × IsDigit d
unfolding show_u64 digits_of
show_u64-last n = (
  if ltb n 10 then [] else digits_of 19 (n / 10),
  b'0' + n % 10,
  refl,
  (omega arith, omega arith),
)

-- A test that holds of every number below a bound.
all_below : ℕ → (ℕ → Bool) → Bool
all_below zero f = true
all_below (suc n) f = f n && all_below n f

all_below_lem : (n : ℕ) (f : ℕ → Bool) (i : ℕ) → all_below n f ≡ true → i < n → f i ≡ true
unfolding all_below
all_below_lem zero f i h lt = absurd (omega arith)
all_below_lem (suc n) f i h lt = elim (Bool-cases (i == n)) [
  | inl e ↦ subst (λ j. f j ≡ true) (sym ((==_iff i n).0 e)) (ground arith)
  | inr e ↦ all_below_lem n f i (ground arith) (ground arith)
]

reads : Option ℕ → ℕ → Bool
reads none n = false
reads (some m) n = m == n

reads_lem : (o : Option ℕ) (n : ℕ) → reads o n ≡ true → o ≡ some n
unfolding reads
reads_lem none n h = absurd cc
reads_lem (some m) n h = ap some ((==_iff m n).0 h)

octets_read : all_below 256 (λ n. reads (parse_octet (show_u64 n)) n) ≡ true
unfolding all_below reads parse_octet show_u64
octets_read = refl

parse_octet-show : (n : ℕ) → n < 256 → parse_octet (show_u64 n) ≡ some n
parse_octet-show n h =
    reads_lem (parse_octet (show_u64 n)) n
      (all_below_lem 256 (λ n. reads (parse_octet (show_u64 n)) n) n octets_read h)

prefixes_read : all_below 33 (λ n. reads (parse_u32 (show_u64 n)) n) ≡ true
unfolding all_below reads parse_u32 show_u64
prefixes_read = refl

pub parse_u32-show : (n : ℕ) → n ≤ 32 → parse_u32 (show_u64 n) ≡ some n
parse_u32-show n h =
    reads_lem (parse_u32 (show_u64 n)) n
      (all_below_lem 33 (λ n. reads (parse_u32 (show_u64 n)) n) n prefixes_read (omega arith))

split_none : (sep : ℕ) (s : Text) → All (λ c. (c == sep) ≡ false) s → split sep s ≡ s ∷ []
unfolding split push_first
split_none sep [] h = refl
split_none sep (c ∷ s) (hc, h) = rw (hc, split_none sep s h)

split-append :
    (sep : ℕ) (s t : Text)
    → All (λ c. (c == sep) ≡ false) s
    → split sep (s ++ sep ∷ t) ≡ s ∷ split sep t
unfolding split push_first
split-append sep [] t h = rw ((==_iff sep sep).1 refl)
split-append sep (c ∷ s) t (hc, h) = rw (hc, split-append sep s t h)

All-map : (P Q : ℕ → Type 0) (s : Text) → ((c : ℕ) → P c → Q c) → All P s → All Q s
All-map P Q [] f h = tt
All-map P Q (c ∷ s) f (hc, h) = (f c hc, All-map P Q s f h)

show_no_dot : (n : ℕ) → All (λ c. (c == b'.') ≡ false) (show_u64 n)
show_no_dot n =
    All-map IsDigit (λ c. (c == b'.') ≡ false) (show_u64 n) (λ c h. ground arith) (show_u64-All n)

split-show_ipv4 :
    (a : ℕ)
    → split b'.' (show_ipv4 a)
      ≡ show_u64 (a / 2 ^ 24 % 256)
        ∷ show_u64 (a / 2 ^ 16 % 256)
        ∷ show_u64 (a / 2 ^ 8 % 256)
        ∷ show_u64 (a % 256)
        ∷ []
unfolding show_ipv4
split-show_ipv4 a =
    let w = a / 2 ^ 24 % 256 in
    let x = a / 2 ^ 16 % 256 in
    let y = a / 2 ^ 8 % 256 in
    let z = a % 256 in
    split-append b'.' (show_u64 w) (show_u64 x ++ b'.' ∷ (show_u64 y ++ b'.' ∷ show_u64 z))
      (show_no_dot w)
    ∙ ap (◌∷◌ (show_u64 w)) (
        split-append b'.' (show_u64 x) (show_u64 y ++ b'.' ∷ show_u64 z) (show_no_dot x)
        ∙ ap (◌∷◌ (show_u64 x)) (
            split-append b'.' (show_u64 y) (show_u64 z) (show_no_dot y)
            ∙ ap (◌∷◌ (show_u64 y)) (split_none b'.' (show_u64 z) (show_no_dot z))))

four_octets_lem :
    (a b c d : Text) (w x y z : ℕ)
    → parse_octet a ≡ some w
    → parse_octet b ≡ some x
    → parse_octet c ≡ some y
    → parse_octet d ≡ some z
    → four_octets (a ∷ b ∷ c ∷ d ∷ []) ≡ some (w * 2 ^ 24 + x * 2 ^ 16 + y * 2 ^ 8 + z)
unfolding four_octets
four_octets_lem a b c d w x y z ha hb hc hd = ground (arith, ha, hb, hc, hd)

four_octets-show :
    (w x y z : ℕ)
    → w < 256
    → x < 256
    → y < 256
    → z < 256
    → four_octets (show_u64 w ∷ show_u64 x ∷ show_u64 y ∷ show_u64 z ∷ [])
      ≡ some (w * 2 ^ 24 + x * 2 ^ 16 + y * 2 ^ 8 + z)
four_octets-show w x y z hw hx hy hz =
    four_octets_lem (show_u64 w) (show_u64 x) (show_u64 y) (show_u64 z) w x y z
      (parse_octet-show w hw) (parse_octet-show x hx) (parse_octet-show y hy)
      (parse_octet-show z hz)

-- A printed address parses to the address.
pub parse_ipv4-show : (a : ℕ) → a < 2 ^ 32 → parse_ipv4 (show_ipv4 a) ≡ some a
unfolding parse_ipv4
parse_ipv4-show a h =
    let sum : a / 2 ^ 24 % 256 * 2 ^ 24
          + a / 2 ^ 16 % 256 * 2 ^ 16
          + a / 2 ^ 8 % 256 * 2 ^ 8
          + a % 256
        ≡ a =
      omega arith in
    ap four_octets (split-show_ipv4 a)
    ∙ four_octets-show (a / 2 ^ 24 % 256) (a / 2 ^ 16 % 256) (a / 2 ^ 8 % 256) (a % 256)
        (omega arith) (omega arith) (omega arith) (omega arith)
    ∙ ap some sum
