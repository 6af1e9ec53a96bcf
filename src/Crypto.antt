-- ===== src/Crypto.antt =====
-- core/rust/shadowvpn-ios-ffi/src/vendor/crypto.rs: the AEAD envelope of a datagram and the key
-- derivation. The crates md5, hkdf, aes-gcm and chacha20poly1305 are the parameter `Primitives`.
pub mod Key
pub mod Envelope
pub mod Toy
mod Tests
use shadowvpn_ios.Prelude.{
  ℕ, zero, suc, ◌+◌, ◌*◌, ◌≤◌, ◌≡◌, Bool, true, false, Option, none, some, List, [], ◌∷◌, ◌++◌,
  length, take, drop, replicate, ltb, ◌==◌, if◌then◌else◌, All, IsByte,
}
use shadowvpn_ios.Prelude.Result.{Result, ok, err, ◌>>=◌}
use shadowvpn_ios.Text.{Text, codes, text_eq}

abbrev pub nonce_len : ℕ
nonce_len = 12

abbrev pub tag_len : ℕ
tag_len = 16

abbrev pub ss_subkey_info : List ℕ
ss_subkey_info = codes "ss-subkey"

pub data CryptoError : Type 0 where
  unknown_cipher : Text → CryptoError
  too_short : ℕ → ℕ → CryptoError
  hkdf : CryptoError
  aead : CryptoError

pub data Cipher : Type 0 where
  aes128_gcm aes256_gcm chacha20_poly1305 : Cipher

unfoldable pub from_name : Text → Result CryptoError Cipher
from_name s =
    if text_eq s (codes "aes-128-gcm")
    then ok aes128_gcm
    else if text_eq s (codes "aes-256-gcm")
    then ok aes256_gcm
    else if text_eq s (codes "chacha20-poly1305")
    then ok chacha20_poly1305
    else if text_eq s (codes "chacha20-ietf-poly1305")
    then ok chacha20_poly1305
    else err (unknown_cipher s)

unfoldable pub name : Cipher → Text
name aes128_gcm = codes "aes-128-gcm"
name aes256_gcm = codes "aes-256-gcm"
name chacha20_poly1305 = codes "chacha20-poly1305"

abbrev pub key_len : Cipher → ℕ
key_len aes128_gcm = 16
key_len aes256_gcm = 32
key_len chacha20_poly1305 = 32

abbrev pub salt_len : Cipher → ℕ
salt_len c = key_len c

-- What the crates compute, with the laws that they document: digests of 16 bytes, HKDF-SHA1 output of
-- the length asked for up to 255 blocks of 20 bytes, and AEADs that append a tag of 16 bytes and open
-- what was sealed with the same key and nonce, and return bytes for bytes. `encrypt` and `decrypt` are `none` on an AEAD error.
pub record Primitives : Type 0 where
  pub md5 : List ℕ → List ℕ
  pub hkdf_sha1 : (ikm salt info : List ℕ) → ℕ → Option (List ℕ)
  pub encrypt : Cipher → (key nonce plaintext : List ℕ) → Option (List ℕ)
  pub decrypt : Cipher → (key nonce ciphertext : List ℕ) → Option (List ℕ)

pub record PrimitiveLaws (p : Primitives) : Type 0 where
  pub length-md5 : (m : List ℕ) → length (p.md5 m) ≡ 16
  pub hkdf_total :
      (ikm salt info : List ℕ) (l : ℕ)
      → l ≤ 255 * 20
      → (k : List ℕ) × (p.hkdf_sha1 ikm salt info l ≡ some k) × (length k ≡ l)
  pub seals :
      (c : Cipher) (key nonce plaintext : List ℕ)
      → length key ≡ key_len c
      → length nonce ≡ nonce_len
      → length plaintext ≤ 65535
      → (ct : List ℕ) × (p.encrypt c key nonce plaintext ≡ some ct)
        × (length ct ≡ length plaintext + tag_len)
        × (p.decrypt c key nonce ct ≡ some plaintext)
  pub encrypt-IsByte :
      (c : Cipher) (key nonce plaintext ct : List ℕ)
      → All IsByte plaintext
      → p.encrypt c key nonce plaintext ≡ some ct
      → All IsByte ct

module _ (p : Primitives) where
  -- The `while` loop, with as many rounds at most as bytes are wanted.
  pub evp_loop : ℕ → List ℕ → ℕ → List ℕ → List ℕ → List ℕ
  evp_loop zero password n prev key = key
  evp_loop (suc fuel) password n prev key =
      let prev' = p.md5 (prev ++ password) in
      let rest = evp_loop fuel password n prev' (key ++ prev') in
      if ltb (length key) n then rest else key

  unfoldable pub evp_bytes_to_key : List ℕ → ℕ → List ℕ
  unfolding evp_loop
  evp_bytes_to_key password n = take n (evp_loop n password n [] [])

  pub derive_subkey : (master_key salt : List ℕ) → ℕ → Result CryptoError (List ℕ)
  derive_subkey master_key salt n = elim (p.hkdf_sha1 master_key salt ss_subkey_info n) [
    | none ↦ err hkdf
    | some k ↦ ok k
  ]

  abbrev pub nonce : List ℕ
  nonce = replicate nonce_len 0

  -- `Key::try_from` fails on a key of another length.
  pub aead_seal : Cipher → (subkey plaintext : List ℕ) → Result CryptoError (List ℕ)
  aead_seal c subkey plaintext =
      if length subkey == key_len c
      then elim (p.encrypt c subkey nonce plaintext) [ none ↦ err aead | some ct ↦ ok ct ]
      else err aead

  pub aead_open : Cipher → (subkey ciphertext : List ℕ) → Result CryptoError (List ℕ)
  aead_open c subkey ciphertext =
      if length subkey == key_len c
      then elim (p.decrypt c subkey nonce ciphertext) [ none ↦ err aead | some pt ↦ ok pt ]
      else err aead

  -- `salt` is what the random generator fills the salt buffer with.
  unfoldable pub encrypt_packet :
      Cipher → (salt master_key plaintext : List ℕ) → Result CryptoError (List ℕ)
  unfolding derive_subkey aead_seal
  encrypt_packet c salt master_key plaintext = do
    subkey ← derive_subkey master_key salt (key_len c)
    ciphertext ← aead_seal c subkey plaintext
    ok (salt ++ ciphertext)

  unfoldable pub decrypt_packet :
      Cipher → (master_key datagram : List ℕ) → Result CryptoError (List ℕ)
  unfolding derive_subkey aead_open
  decrypt_packet c master_key datagram =
      if ltb (length datagram) (salt_len c + tag_len)
      then err (too_short (length datagram) (salt_len c + tag_len))
      else do
        subkey ← derive_subkey master_key (take (salt_len c) datagram) (key_len c)
        aead_open c subkey (drop (salt_len c) datagram)
