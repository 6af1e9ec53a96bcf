-- ===== src/Crypto/Toy.antt =====
-- Primitives that satisfy the laws and run: no cryptography, for tests only.
use shadowvpn_ios.Prelude.{
  ℕ, ◌-◌, ◌≡◌, refl, ap, some, List, ◌++◌, length, take, replicate, length-replicate, length-append,
  take-append, All, All-append, IsByte, arith, subst,
}
use shadowvpn_ios.Crypto.{Primitives, PrimitiveLaws, tag_len}

abbrev pub toy : Primitives
toy = record {
  md5 = λ m. replicate 16 0x5A;
  hkdf_sha1 = λ ikm salt info l. some (replicate l 1);
  encrypt = λ c key nonce plaintext. some (plaintext ++ replicate tag_len 0);
  decrypt = λ c key nonce ciphertext. some (take (length ciphertext - tag_len) ciphertext);
}

some_injective : {a b : List ℕ} → some a ≡ some b → a ≡ b
some_injective e = cc

pub toy_laws : PrimitiveLaws toy
toy_laws = record {
  length-md5 = λ m. refl;
  hkdf_total = λ ikm salt info l h. (replicate l 1, refl, length-replicate l 1);
  seals = λ c key nonce plaintext hk hn hp.
      let l = length-append plaintext (replicate tag_len 0) in
      (
        plaintext ++ replicate tag_len 0,
        refl,
        l,
        ap some (
            take-append (length (plaintext ++ replicate tag_len 0) - tag_len) plaintext
              (replicate tag_len 0) (omega (arith, l))),
      );
  encrypt-IsByte = λ c key nonce plaintext ct hp e.
      subst (All IsByte) (some_injective e)
        (All-append IsByte plaintext (replicate tag_len 0) hp (omega arith));
}
