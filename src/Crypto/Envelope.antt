-- ===== src/Crypto/Envelope.antt =====
-- vendor/crypto.rs, the envelope `salt ++ ciphertext ++ tag`: `encrypt_packet` and `decrypt_packet`.
use shadowvpn_ios.Prelude.{
  ℕ, ◌+◌, ◌≤◌, ◌<◌, ◌≡◌, refl, subst, List, ◌++◌, length, take, arith, length-append, take-append,
  drop-append, ◌↔◌, All, IsByte, All-append, Option-cases, inl, inr,
}
use shadowvpn_ios.Prelude.Result.{ok, err, bind-ok, ok_injective}
use shadowvpn_ios.Crypto.{
  Primitives, PrimitiveLaws, Cipher, aes128_gcm, aes256_gcm, chacha20_poly1305, too_short, key_len,
  salt_len, tag_len, nonce, ss_subkey_info, encrypt_packet, decrypt_packet, aead_seal,
  derive_subkey,
}

pub key_len_bounds : (c : Cipher) → (16 ≤ key_len c) × (key_len c ≤ 32)
key_len_bounds aes128_gcm = omega arith
key_len_bounds aes256_gcm = omega arith
key_len_bounds chacha20_poly1305 = omega arith

module _ (p : Primitives) (laws : PrimitiveLaws p) where
  -- Encrypting a packet of at most 65535 bytes with a salt of the cipher's length succeeds. The
  -- datagram is as long as the packet, the salt and the tag together, begins with the salt, and
  -- decrypts with the same key to the packet.
  pub decrypt-encrypt :
      (c : Cipher) (salt master_key plaintext : List ℕ)
      → length salt ≡ salt_len c
      → length plaintext ≤ 65535
      → (datagram : List ℕ) × (encrypt_packet p c salt master_key plaintext ≡ ok datagram)
        × (length datagram ≡ salt_len c + length plaintext + tag_len)
        × (take (salt_len c) datagram ≡ salt)
        × (decrypt_packet p c master_key datagram ≡ ok plaintext)
  unfolding encrypt_packet decrypt_packet
  decrypt-encrypt c salt master_key plaintext hs hp =
      let (subkey, derived, ls) =
        laws.hkdf_total master_key salt ss_subkey_info (key_len c)
          (omega (arith, key_len_bounds c)) in
      let (ct, sealed, lc, opened) = laws.seals c subkey (nonce p) plaintext ls refl hp in
      let cut = take-append (salt_len c) salt ct (omega arith) in
      let rest = drop-append (salt_len c) salt ct (omega arith) in
      (
        salt ++ ct,
        ground (arith, derived, sealed),
        omega (arith, length-append salt ct),
        cut,
        rw (cut, rest) (ground (arith, derived, opened, length-append salt ct)),
      )

  -- A datagram is refused as too short, with its length and the length needed, exactly when it cannot
  -- hold a salt and a tag.
  decrypt_too_short :
      (c : Cipher) (master_key datagram : List ℕ)
      → (decrypt_packet p c master_key datagram
          ≡ err (too_short (length datagram) (salt_len c + tag_len)))
        ↔ (length datagram < salt_len c + tag_len)
  unfolding decrypt_packet
  decrypt_too_short c master_key datagram = (ground arith, ground arith)

  seal-IsByte :
      (c : Cipher) (subkey plaintext ct : List ℕ)
      → All IsByte plaintext
      → aead_seal p c subkey plaintext ≡ ok ct
      → All IsByte ct
  unfolding aead_seal
  seal-IsByte c subkey plaintext ct hp h =
      elim (Option-cases (p.encrypt c subkey (nonce p) plaintext)) [
        | inl e ↦ absurd (ground (arith, e))
        | inr (ct', e) ↦ laws.encrypt-IsByte c subkey (nonce p) plaintext ct hp (ground (arith, e))
      ]

  -- An encrypted datagram consists of bytes, if its salt and its plaintext do.
  pub encrypt_packet-IsByte :
      (c : Cipher) (salt master_key plaintext datagram : List ℕ)
      → All IsByte salt
      → All IsByte plaintext
      → encrypt_packet p c salt master_key plaintext ≡ ok datagram
      → All IsByte datagram
  unfolding encrypt_packet
  encrypt_packet-IsByte c salt master_key plaintext datagram hs hp h =
      let (subkey, _, h') = bind-ok (derive_subkey p master_key salt (key_len c)) datagram h in
      let (ct, sealed, e) = bind-ok (aead_seal p c subkey plaintext) datagram h' in
      subst (All IsByte) (ok_injective e)
        (All-append IsByte salt ct hs (seal-IsByte c subkey plaintext ct hp sealed))
