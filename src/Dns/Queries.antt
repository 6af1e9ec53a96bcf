-- ===== src/Dns/Queries.antt =====
-- vendor/dns.rs: what `build_query` writes is bytes.
use shadowvpn_ios.Prelude.{
  ℕ, List, [], ◌∷◌, length, ltb, ◌||◌, ◌==◌, All, All-append, IsByte, Bool-cases, inl, inr, subst,
  sym, arith,
}
use shadowvpn_ios.Text.Utf8.{IsAscii}
use shadowvpn_ios.Text.{split}
use shadowvpn_ios.Dns.{push_labels, build_query, join}
use shadowvpn_ios.Dns.Labels.{IsLabel, split-join}

ascii-IsByte : (l : List ℕ) → All IsAscii l → All IsByte l
ascii-IsByte [] h = tt
ascii-IsByte (b ∷ l) (hb, h) = (omega arith, ascii-IsByte l h)

push_labels-IsByte : (ls : List (List ℕ)) → All IsLabel ls → All IsByte (push_labels ls)
unfolding push_labels
push_labels-IsByte [] h = tt
push_labels-IsByte (l ∷ ls) (h, hs) =
    let rest = push_labels-IsByte ls hs in
    elim (Bool-cases (length l == 0 || ltb 63 (length l))) [
      | inl e ↦ rw e rest
      | inr e ↦
          let short = h.short in
          rw e (omega arith, All-append IsByte l (push_labels ls) (ascii-IsByte l h.ascii) rest)
    ]

pub build_query-IsByte :
    (id : ℕ) (l : List ℕ) (ls : List (List ℕ))
    → All IsLabel (l ∷ ls)
    → All IsByte (build_query id (join (l ∷ ls)))
unfolding build_query
build_query-IsByte id l ls h =
    let labels : All IsByte (push_labels (split b'.' (join (l ∷ ls)))) =
      subst (λ x. All IsByte (push_labels x)) (sym (split-join l ls h))
        (push_labels-IsByte (l ∷ ls) h) in
    let tail : List ℕ = 0 ∷ 0 ∷ 1 ∷ 0 ∷ 1 ∷ [] in
    let all =
      All-append IsByte (push_labels (split b'.' (join (l ∷ ls)))) tail labels (omega arith) in
    (
      omega arith,
      (
        omega arith,
        (
          omega arith,
          (
            omega arith,
            (
              omega arith,
              (
                omega arith,
                (
                  omega arith,
                  (omega arith, (omega arith, (omega arith, (omega arith, (omega arith, all))))),
                ),
              ),
            ),
          ),
        ),
      ),
    )
