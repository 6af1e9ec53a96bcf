-- ===== src/Crypto/Key.antt =====
-- vendor/crypto.rs: `evp_bytes_to_key`.
use native.Mathlib.Decide.{dec_lt}
use shadowvpn_ios.Prelude.{
  ℕ, zero, suc, ◌+◌, ◌*◌, ◌≤◌, ◌<◌, ◌≡◌, refl, sym, ◌∙◌, ap, List, [], ◌∷◌, ◌++◌, append_assoc,
  length, take, arith, length-append, length-take,
}
use shadowvpn_ios.Crypto.{Primitives, PrimitiveLaws, evp_loop, evp_bytes_to_key}

module _ (p : Primitives) (laws : PrimitiveLaws p) where
  -- `d_i ++ d_(i+1) ++ …`, `n` digests after `prev`, each of the one before it and the password.
  pub chain : ℕ → (password prev : List ℕ) → List ℕ
  chain zero password prev = []
  chain (suc n) password prev = let d = p.md5 (prev ++ password) in d ++ chain n password d

  chain_step :
      (k : ℕ) (password prev key : List ℕ)
      → let d = p.md5 (prev ++ password) in
        (key ++ d) ++ chain k password d ≡ key ++ chain (suc k) password prev
  unfolding chain
  chain_step k password prev key = append_assoc key (p.md5 (prev ++ password)) _

  length-chain : (n : ℕ) (password prev : List ℕ) → length (chain n password prev) ≡ 16 * n
  unfolding chain
  length-chain zero password prev = omega arith
  length-chain (suc n) password prev =
      let d = p.md5 (prev ++ password) in
      omega (
        arith,
        length-append d (chain n password d),
        laws.length-md5 (prev ++ password),
        length-chain n password d,
      )

  -- A take that ends in front of the last digest does not see how the loop goes on.
  take-append_le : (n : ℕ) (xs ys : List ℕ) → n ≤ length xs → take n (xs ++ ys) ≡ take n xs
  take-append_le zero xs ys h = refl
  take-append_le (suc n) [] ys h = absurd (omega arith)
  take-append_le (suc n) (x ∷ xs) ys h = ap (◌∷◌ x) (take-append_le n xs ys (omega arith))

  evp_loop_full :
      (fuel : ℕ) (password : List ℕ) (n : ℕ) (prev key : List ℕ)
      → n ≤ length key
      → evp_loop p (suc fuel) password n prev key ≡ key
  unfolding evp_loop
  evp_loop_full fuel password n prev key h = ground arith

  evp_loop_more :
      (fuel : ℕ) (password : List ℕ) (n : ℕ) (prev key : List ℕ)
      → length key < n
      → evp_loop p (suc fuel) password n prev key
        ≡ evp_loop p fuel password n (p.md5 (prev ++ password)) (key ++ p.md5 (prev ++ password))
  unfolding evp_loop
  evp_loop_more fuel password n prev key h = ground arith

  evp_loop-chain :
      (fuel k n : ℕ) (password prev key : List ℕ)
      → n ≤ length key + 16 * k
      → n ≤ length key + 16 * fuel
      → take n (evp_loop p fuel password n prev key) ≡ take n (key ++ chain k password prev)
  evp_loop-chain zero k n password prev key h f =
      unfold evp_loop in sym (take-append_le n key (chain k password prev) (omega arith))
  evp_loop-chain (suc fuel) zero n password prev key h f =
      rw (evp_loop_full fuel password n prev key (omega arith))
        (sym (take-append_le n key (chain zero password prev) (omega arith)))
  evp_loop-chain (suc fuel) (suc k) n password prev key h f =
      let d = p.md5 (prev ++ password) in
      let grown = length-append key d in
      let sixteen = laws.length-md5 (prev ++ password) in
      elim (dec_lt (length key) n) [
        | no full ↦
            rw (evp_loop_full fuel password n prev key (omega arith))
              (sym (take-append_le n key (chain (suc k) password prev) (omega arith)))
        | yes short ↦ rw (evp_loop_more fuel password n prev key short) (
            evp_loop-chain fuel k n password d (key ++ d) (omega arith) (omega arith)
            ∙ ap (take n) (chain_step k password prev key))
      ]

  -- The password's key of `n` bytes is the first `n` bytes of d_0 ++ d_1 ++ …, where d_0 is the digest
  -- of the password and d_(i+1) that of d_i ++ password; any number of digests that covers `n` bytes
  -- gives the same key.
  pub evp_bytes_to_key-chain :
      (password : List ℕ) (n k : ℕ)
      → n ≤ 16 * k
      → evp_bytes_to_key p password n ≡ take n (chain k password [])
  unfolding evp_bytes_to_key
  evp_bytes_to_key-chain password n k h =
      evp_loop-chain n k n password [] [] (omega arith) (omega arith)

  -- The key has exactly the length asked for: the loop ends, and only after enough digests.
  pub length-evp_bytes_to_key :
      (password : List ℕ) (n : ℕ) → length (evp_bytes_to_key p password n) ≡ n
  length-evp_bytes_to_key password n =
      rw (evp_bytes_to_key-chain password n n (omega arith))
        (omega (arith, length-take n (chain n password []), length-chain n password []))
