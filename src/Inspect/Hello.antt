-- ===== src/Inspect/Hello.antt =====
-- A TLS ClientHello as RFC 8446 and RFC 6066 lay it out, and the one that the tests of inspect.rs
-- build.
pub mod Extensions
pub mod Sni
mod Tests
use shadowvpn_ios.Prelude.{
  ℕ, ◌+◌, ◌/◌, ◌%◌, ◌^◌, ◌<◌, ◌≡◌, ◌≢◌, List, [], ◌∷◌, ◌++◌, length, replicate, All, to_be16,
}
use shadowvpn_ios.Prelude.Outcome.{Outcome, ret, nothing}
use shadowvpn_ios.Text.{Text, as_bytes}
use shadowvpn_ios.Text.Utf8.Decoded.{IsScalar}

-- An extension: server_name with one host, or any other type with its bytes.
pub data Extension : Type 0 where
  host_name : Text → Extension
  other : ℕ → List ℕ → Extension

-- The data of server_name: the list's length, the type host_name, and the name behind its length.
pub host_entry : List ℕ → List ℕ
host_entry name = to_be16 (1 + 2 + length name) ++ (0 ∷ (to_be16 (length name) ++ name))

pub extension_type : Extension → ℕ
extension_type (host_name host) = 0
extension_type (other etype bytes) = etype

pub extension_body : Extension → List ℕ
extension_body (host_name host) = host_entry (as_bytes host)
extension_body (other etype bytes) = bytes

pub entry : ℕ → List ℕ → List ℕ
entry etype body = to_be16 etype ++ (to_be16 (length body) ++ body)

pub entries : List Extension → List ℕ
unfolding entry extension_type extension_body
entries [] = []
entries (e ∷ es) = entry (extension_type e) (extension_body e) ++ entries es

pub record Hello : Type 0 where
  pub version : List ℕ
  pub random : List ℕ
  pub session_id : List ℕ
  pub cipher_suites : List ℕ
  pub compression : List ℕ
  pub extensions : List Extension

abbrev to_be24 : ℕ → List ℕ
to_be24 n = (n / 2 ^ 16 % 256) ∷ (n / 256 % 256) ∷ (n % 256) ∷ []

-- What follows the session id's length, part by part.
pub extension_part : Hello → List ℕ
unfolding entries
extension_part h = to_be16 (length (entries h.extensions)) ++ entries h.extensions

pub compression_part : Hello → List ℕ
compression_part h = (length h.compression % 256) ∷ (h.compression ++ extension_part h)

pub suites_part : Hello → List ℕ
suites_part h = to_be16 (length h.cipher_suites) ++ (h.cipher_suites ++ compression_part h)

pub session_part : Hello → List ℕ
session_part h = (length h.session_id % 256) ∷ (h.session_id ++ suites_part h)

pub hello_body : Hello → List ℕ
hello_body h = h.version ++ (h.random ++ session_part h)

-- The handshake message, and the record around it.
pub handshake : Hello → List ℕ
handshake h = 0x01 ∷ (to_be24 (length (hello_body h)) ++ hello_body h)

unfoldable pub client_hello : Hello → List ℕ
unfolding handshake
client_hello h = 0x16 ∷ 0x03 ∷ 0x01 ∷ (to_be16 (length (handshake h)) ++ handshake h)

-- The record that the test `tls_sni_parsed` writes, for any host.
abbrev pub test_hello : Text → Hello
test_hello host = record {
  version = 0x03 ∷ 0x03 ∷ [];
  random = replicate 32 0;
  session_id = [];
  cipher_suites = 0x13 ∷ 0x01 ∷ [];
  compression = 0 ∷ [];
  extensions = host_name host ∷ [];
}

unfoldable pub test_record : Text → List ℕ
unfolding client_hello
test_record host = client_hello (test_hello host)

pub IsExtension : Extension → Type 0
IsExtension (host_name host) = All IsScalar host
IsExtension (other etype bytes) = (etype ≢ 0) × (etype < 65536)

-- The lengths fit their fields.
pub record IsHello (h : Hello) : Type 0 where
  pub version_len : length h.version ≡ 2
  pub random_len : length h.random ≡ 32
  pub session_id_len : length h.session_id < 256
  pub cipher_suites_len : length h.cipher_suites < 65536
  pub compression_len : length h.compression < 256
  pub extensions_len : length (entries h.extensions) < 65536
  pub each : All IsExtension h.extensions

-- The host of the first server_name extension.
unfoldable pub server_of : List Extension → Outcome (List ℕ)
server_of [] = nothing
server_of (host_name host ∷ es) = ret (as_bytes host)
server_of (other etype bytes ∷ es) = server_of es
