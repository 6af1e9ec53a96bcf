-- ===== src/Chnroute/Cidr/Printed.antt =====
-- policy/chnroute.rs, `parse_cidr`: lines that a program wrote.
use shadowvpn_ios.Prelude.{
  ℕ, ◌≤◌, ◌≡◌, refl, ap, ◌∙◌, Bool, false, none, some, [], ◌∷◌, ◌++◌, ◌==◌, All, All-append, arith,
}
use shadowvpn_ios.Text.{Text, trim, split_once, parse_u32, parse_ipv4}
use shadowvpn_ios.Text.Trim.{IsVisible, visible_lem, trim-visible, trim-first, split_once-append}
use shadowvpn_ios.Chnroute.Cidr.{is_skipped, block, parse_parts, parse_cidr, parse_lines}
use shadowvpn_ios.Chnroute.Cidr.Lines.{parse_lines_skip}

-- A digit or a dot.
abbrev pub IsAddressChar : ℕ → Type 0
IsAddressChar c = (46 ≤ c) × (c ≤ 57) × ((c == b'/') ≡ false)

IsVisible-of : (s : Text) → All IsAddressChar s → All IsVisible s
IsVisible-of [] h = tt
IsVisible-of (c ∷ s) ((lo, hi, n), h) =
    (visible_lem c (omega arith) (omega arith), IsVisible-of s h)

no_slash_of : (s : Text) → All IsAddressChar s → All (λ c. (c == b'/') ≡ false) s
no_slash_of [] h = tt
no_slash_of (c ∷ s) ((lo, hi, n), h) = (n, no_slash_of s h)

is_skipped_not : (s t : Text) → All IsAddressChar s → is_skipped (s ++ b'/' ∷ t) ≡ false
unfolding is_skipped
is_skipped_not [] t h = refl
is_skipped_not (c ∷ s) t (hc, h) = ground arith

parse_parts_lem :
    (addr len : Text) (base n : ℕ)
    → parse_ipv4 (trim addr) ≡ some base
    → parse_u32 (trim len) ≡ some n
    → n ≤ 32
    → parse_parts (addr, len) ≡ some (block base n)
unfolding parse_parts
parse_parts_lem addr len base n ha hl le = ground (arith, ha, hl)

parse_cidr_split :
    (raw line : Text) (parts : Text × Text)
    → trim raw ≡ line
    → is_skipped line ≡ false
    → split_once b'/' line ≡ some parts
    → parse_cidr raw ≡ parse_parts parts
unfolding parse_cidr
parse_cidr_split raw line parts e f g = rw (e, f, g)

parse_cidr_skipped :
    (raw line : Text) → trim raw ≡ line → is_skipped line ≡ Bool.true → parse_cidr raw ≡ none
unfolding parse_cidr
parse_cidr_skipped raw line e f = rw (e, f)

-- An address and a prefix length with a slash between them are a block.
pub parse_cidr-written :
    (addr len : Text) (base n : ℕ)
    → All IsAddressChar addr
    → All IsAddressChar len
    → parse_ipv4 addr ≡ some base
    → parse_u32 len ≡ some n
    → n ≤ 32
    → parse_cidr (addr ++ b'/' ∷ len) ≡ some (block base n)
parse_cidr-written addr len base n ha hl ea el le =
    let line = addr ++ b'/' ∷ len in
    let visible : All IsVisible line =
      All-append IsVisible addr (b'/' ∷ len) (IsVisible-of addr ha)
        (visible_lem b'/' (omega arith) (omega arith), IsVisible-of len hl) in
    parse_cidr_split line line (addr, len) (trim-visible line visible) (is_skipped_not addr len ha)
      (split_once-append b'/' addr len (no_slash_of addr ha))
    ∙ parse_parts_lem addr len base n
        (ap parse_ipv4 (trim-visible addr (IsVisible-of addr ha)) ∙ ea)
        (ap parse_u32 (trim-visible len (IsVisible-of len hl)) ∙ el) le

-- A line that starts with `#` is skipped.
pub parse_cidr-comment : (s : Text) → parse_cidr (b'#' ∷ s) ≡ none
unfolding is_skipped
parse_cidr-comment s =
    let (t, e) = trim-first b'#' s (visible_lem b'#' (omega arith) (omega arith)) in
    parse_cidr_skipped (b'#' ∷ s) (b'#' ∷ t) e refl

parse_cidr_blank : parse_cidr [] ≡ none
unfolding is_skipped
parse_cidr_blank = parse_cidr_skipped [] [] (trim-visible [] tt) refl

pub parse_lines_nil : parse_lines [] ≡ []
unfolding parse_lines
parse_lines_nil = refl

-- An empty line adds nothing.
pub parse_lines_blank : parse_lines ([] ∷ []) ≡ []
parse_lines_blank = parse_lines_skip [] [] parse_cidr_blank ∙ parse_lines_nil
