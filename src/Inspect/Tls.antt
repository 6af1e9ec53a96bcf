-- ===== src/Inspect/Tls.antt =====
-- inspect.rs: the indexing of `describe` and `tls_sni`.
use shadowvpn_ios.Prelude.{
  ℕ, zero, suc, ◌+◌, ◌*◌, ◌/◌, ◌≤◌, ◌≡◌, ◌≢◌, sym, ◌∙◌, ◌||◌, not, List, [], ◌∷◌, length, get_or,
  ltb, ◌==◌, ==_iff, be16, bit_and, arith,
}
use shadowvpn_ios.Prelude.Outcome.{
  Outcome, ret, ret_injective, index, index-lt, ◌>>=◌, get, Safe, ret-Safe, nothing-Safe, if-Safe,
  index-Safe, bind-Safe,
}
use shadowvpn_ios.Text.Utf8.{is_utf8}
use shadowvpn_ios.Inspect.{
  get_from, get_range, server_name, sni_loop, tls_sni, describe, describe_udp,
}
use shadowvpn_ios.Dns.{question}
use shadowvpn_ios.Dns.Safety.{parsers-Safe}

get-Safe : (b : List ℕ) (i : ℕ) → Safe (get b i)
unfolding get
get-Safe b i e = ground (arith, e)

get_from-Safe : (b : List ℕ) (i : ℕ) → Safe (get_from b i)
unfolding get_from
get_from-Safe b i = if-Safe (ltb (length b) i) (λ _. nothing-Safe) (λ _. ret-Safe _)

get_range-Safe : (b : List ℕ) (i j : ℕ) → Safe (get_range b i j)
unfolding get_range
get_range-Safe b i j = if-Safe (ltb j i || ltb (length b) j) (λ _. nothing-Safe) (λ _. ret-Safe _)

server_name-Safe : (body : List ℕ) → Safe (server_name body)
unfolding server_name
server_name-Safe body =
    if-Safe (ltb (length body) 5) (λ _. nothing-Safe)
      λ long. index-Safe body 2 (ground arith) λ name_type.
        if-Safe (not (name_type == 0)) (λ _. nothing-Safe)
          λ _. index-Safe body 3 (ground arith) λ hi. index-Safe body 4 (ground arith) λ lo.
            bind-Safe (get_range body 5 (5 + be16 hi lo)) (get_range-Safe body 5 (5 + be16 hi lo))
              λ name _. if-Safe (is_utf8 name) (λ _. ret-Safe name) (λ _. nothing-Safe)

sni_loop-Safe :
    (fuel : ℕ) (rec : List ℕ) (p ext_end : ℕ)
    → ext_end ≤ length rec
    → Safe (sni_loop fuel rec p ext_end)
unfolding sni_loop
sni_loop-Safe zero rec p ext_end h = nothing-Safe
sni_loop-Safe (suc fuel) rec p ext_end h =
    if-Safe (ltb ext_end (p + 4)) (λ _. nothing-Safe)
      λ fits. index-Safe rec p (ground arith) λ t0. index-Safe rec (p + 1) (ground arith) λ t1.
        index-Safe rec (p + 2) (ground arith) λ l0. index-Safe rec (p + 3) (ground arith) λ l1.
          bind-Safe (get_range rec (p + 4) (p + 4 + be16 l0 l1))
            (get_range-Safe rec (p + 4) (p + 4 + be16 l0 l1))
            λ body _.
              if-Safe (be16 t0 t1 == 0) (λ _. server_name-Safe body)
                (λ _. sni_loop-Safe fuel rec (p + 4 + be16 l0 l1) ext_end h)

then_get {ℓ} :
    {A : Type ℓ} (b : List ℕ) (i : ℕ) {f : ℕ → Outcome A}
    → ((x : ℕ) → Safe (f x))
    → Safe (get b i >>= f)
then_get b i k = bind-Safe (get b i) (get-Safe b i) (λ x _. k x)

-- No byte string makes `tls_sni` index outside the ClientHello, whatever lengths it announces.
tls_sni-Safe : (b : List ℕ) → Safe (tls_sni b)
unfolding tls_sni
tls_sni-Safe b = then_get b 0 λ content_type.
    if-Safe (not (content_type == 0x16)) (λ _. nothing-Safe)
      λ _. bind-Safe (get_from b 5) (get_from-Safe b 5) λ rec _. then_get rec 0 λ msg_type.
        if-Safe (not (msg_type == 0x01)) (λ _. nothing-Safe)
          λ _. then_get rec 38 λ s. then_get rec _ λ c. then_get rec _ λ d. then_get rec _ λ m.
            then_get rec _ λ e. then_get rec _ λ f. sni_loop-Safe (length rec) rec _ _ (omega arith)

describe_udp-Safe : (l4 : List ℕ) → Safe (describe_udp l4)
unfolding describe_udp
describe_udp-Safe l4 =
    if-Safe (ltb (length l4) 8) (λ _. nothing-Safe)
      λ long. index-Safe l4 2 (ground arith) λ hi. index-Safe l4 3 (ground arith) λ lo.
        if-Safe (not (be16 hi lo == 53)) (λ _. nothing-Safe)
          λ _. bind-Safe (get_from l4 8) (get_from-Safe l4 8) λ msg _.
            bind-Safe (question msg) (parsers-Safe msg).1 (λ (name, qtype, qclass) _. ret-Safe _)

index-get_or : (b : List ℕ) (i x : ℕ) → index b i ≡ ret x → x ≡ get_or b i 0
unfolding index
index-get_or [] i x h = absurd cc
index-get_or (y ∷ b) zero x h = ret_injective (sym h)
index-get_or (y ∷ b) (suc i) x h = index-get_or b i x h

-- Describing a packet of any other transport than TCP never panics.
pub describe-Safe : (pkt : List ℕ) → get_or pkt 9 0 ≢ 6 → Safe (describe pkt)
unfolding describe
describe-Safe pkt other =
    if-Safe (ltb (length pkt) 20) (λ _. nothing-Safe)
      λ long. index-Safe pkt 0 (ground arith) λ first.
        let ihl = bit_and first 0x0f * 4 in
        if-Safe (not (first / 16 == 4)) (λ _. nothing-Safe)
          λ _.
            if-Safe (ltb ihl 20 || ltb (length pkt) ihl) (λ _. nothing-Safe)
              λ _.
                bind-Safe (index pkt 9)
                  (let (x, e) = index-lt pkt 9 (ground arith) in rw e (ret-Safe x))
                  λ proto at. index-Safe pkt 19 (ground arith) λ _.
                    bind-Safe (get_from pkt ihl) (get_from-Safe pkt ihl) λ l4 _.
                      if-Safe (proto == 17) (λ _. describe_udp-Safe l4)
                        λ _.
                          if-Safe (proto == 6)
                            (λ tcp.
                              absurd (
                                other (sym (index-get_or pkt 9 proto at) ∙ (==_iff proto 6).0 tcp)))
                            (λ _. nothing-Safe)
