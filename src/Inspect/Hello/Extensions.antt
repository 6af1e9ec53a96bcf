-- ===== src/Inspect/Hello/Extensions.antt =====
-- inspect.rs: the loop of `tls_sni` over the extensions.
use shadowvpn_ios.Prelude.{
  ℕ, zero, suc, ◌+◌, ◌-◌, ◌≤◌, ◌<◌, ◌≡◌, refl, sym, ◌∙◌, List, [], ◌∷◌, ◌++◌, length, take-append,
  append_assoc, length-append, append-nil, ltb, false, All, be16-to_be16, to_be16, arith, ◌==◌,
  if◌then◌else◌,
}
use shadowvpn_ios.Prelude.Cursor.{At, At-append, index-At}
use shadowvpn_ios.Prelude.Outcome.{ret, index}
use shadowvpn_ios.Text.{Text, as_bytes}
use shadowvpn_ios.Text.Utf8.Decoded.{IsScalar, chars-as_bytes}
use shadowvpn_ios.Inspect.{get_range, server_name, sni_loop}
use shadowvpn_ios.Inspect.Hello.{
  Extension, host_name, other, host_entry, extension_type, extension_body, entry, entries,
  IsExtension, server_of,
}

get_range-At :
    (xs : List ℕ) (p q : ℕ) (l rest : List ℕ)
    → At xs p (l ++ rest)
    → q ≡ p + length l
    → q ≤ length xs
    → get_range xs p q ≡ ret l
unfolding get_range
get_range-At xs p q l rest h e fits =
    rw h (let t = take-append (q - p) l rest (omega arith) in ground (arith, t))

server_name-host_entry :
    (host : Text)
    → All IsScalar host
    → length (as_bytes host) < 65536
    → server_name (host_entry (as_bytes host)) ≡ ret (as_bytes host)
unfolding server_name host_entry index
server_name-host_entry host h short =
    let name = as_bytes host in
    let body = host_entry name in
    let range =
      get_range-At body 5 (5 + length name) name [] (sym (append-nil name)) refl (omega arith) in
    rw (be16-to_be16 (length name) short, range, (chars-as_bytes host h).0) (ground arith)

-- One round of the loop, at an extension.
sni_step :
    (fuel : ℕ) (rec : List ℕ) (p ext_end etype : ℕ) (body rest : List ℕ)
    → At rec p (entry etype body ++ rest)
    → etype < 65536
    → length body < 65536
    → p + 4 + length body ≤ ext_end
    → ext_end ≤ length rec
    → sni_loop (suc fuel) rec p ext_end
      ≡ (if etype == 0 then server_name body else sni_loop fuel rec (p + 4 + length body) ext_end)
unfolding sni_loop entry
sni_step fuel rec p ext_end etype body rest h he hb fits inside =
    let more : ltb ext_end (p + 4) ≡ false = ground arith in
    let front = to_be16 etype ++ to_be16 (length body) in
    let at =
      λ (q b : ℕ) (l r : List ℕ) (e : l ++ (b ∷ r) ≡ entry etype body ++ rest)
          (n : q ≡ p + length l).
        (index-At rec q b r (At-append rec p q l (b ∷ r) (h ∙ sym e) n)).0 in
    let here = At-append rec p (p + 4) front (body ++ rest) h refl in
    let range = get_range-At rec (p + 4) (p + 4 + length body) body rest here refl (omega arith) in
    rw
      (
        more,
        at p _ [] _ refl (omega arith),
        at (p + 1) _ (_ ∷ []) _ refl (omega arith),
        at (p + 2) _ (_ ∷ _ ∷ []) _ refl (omega arith),
        at (p + 3) _ (_ ∷ _ ∷ _ ∷ []) _ refl (omega arith),
        be16-to_be16 (length body) hb,
        be16-to_be16 etype he,
        range,
      )
      refl

length-entry : (etype : ℕ) (body : List ℕ) → length (entry etype body) ≡ 4 + length body
unfolding entry
length-entry etype body = omega arith

pub length-entries :
    (e : Extension) (es : List Extension)
    → length (entries (e ∷ es)) ≡ 4 + length (extension_body e) + length (entries es)
unfolding entries
length-entries e es = omega (
  arith,
  length-append (entry (extension_type e) (extension_body e)) (entries es),
  length-entry (extension_type e) (extension_body e),
)

-- The loop finds the host of the first server_name extension, whatever follows the extensions.
pub sni_loop-server_of :
    (es : List Extension) (fuel : ℕ) (rec : List ℕ) (p ext_end : ℕ) (rest : List ℕ)
    → At rec p (entries es ++ rest)
    → ext_end ≡ p + length (entries es)
    → ext_end ≤ length rec
    → length (entries es) < 65536
    → length (entries es) ≤ fuel
    → All IsExtension es
    → sni_loop fuel rec p ext_end ≡ server_of es
unfolding sni_loop entries server_of extension_type extension_body host_entry IsExtension
sni_loop-server_of [] zero rec p ext_end rest h e inside short enough each = refl
sni_loop-server_of [] (suc fuel) rec p ext_end rest h e inside short enough each = ground arith
sni_loop-server_of (x ∷ es) zero rec p ext_end rest h e inside short enough each =
    absurd (omega (arith, length-entries x es))
sni_loop-server_of (host_name host ∷ es) (suc fuel) rec p ext_end rest h e inside short enough
      (scalars, each) =
    let body = host_entry (as_bytes host) in
    let len = length-entries (host_name host) es in
    sni_step fuel rec p ext_end 0 body (entries es ++ rest)
      (h ∙ append_assoc (entry 0 body) (entries es) rest) (omega arith) (omega (arith, len))
      (omega (arith, len)) inside
    ∙ server_name-host_entry host scalars (omega (arith, len))
sni_loop-server_of (other etype bytes ∷ es) (suc fuel) rec p ext_end rest h e inside short enough
      ((ne, small), each) =
    let len = length-entries (other etype bytes) es in
    let h' = h ∙ append_assoc (entry etype bytes) (entries es) rest in
    let differs : (etype == 0) ≡ false = ground (arith, ne) in
    sni_step fuel rec p ext_end etype bytes (entries es ++ rest) h' small (omega (arith, len))
      (omega (arith, len)) inside
    ∙ rw differs (
        sni_loop-server_of es fuel rec (p + 4 + length bytes) ext_end rest
          (At-append rec p (p + 4 + length bytes) (entry etype bytes) (entries es ++ rest) h'
            (omega (arith, length-entry etype bytes)))
          (omega (arith, len)) inside (omega (arith, len)) (omega (arith, len)) each)
