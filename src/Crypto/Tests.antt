-- ===== src/Crypto/Tests.antt =====
-- The properties at concrete keys and packets, over the toy primitives.
use shadowvpn_ios.Prelude.{ℕ, ◌≡◌, List, [], ◌∷◌, length, take, arith}
use shadowvpn_ios.Text.{codes}
use shadowvpn_ios.Crypto.{evp_bytes_to_key}
use shadowvpn_ios.Crypto.Key.{chain, evp_bytes_to_key-chain, length-evp_bytes_to_key}
use shadowvpn_ios.Crypto.Toy.{toy, toy_laws}

abbrev packet : List ℕ
packet = 0x45 ∷ 0 ∷ 0 ∷ 20 ∷ []

evp_bytes_to_key-chain_example :
    evp_bytes_to_key toy (codes "foobar") 32 ≡ take 32 (chain toy toy_laws 2 (codes "foobar") [])
evp_bytes_to_key-chain_example =
    evp_bytes_to_key-chain toy toy_laws (codes "foobar") 32 2 (omega arith)

length-evp_bytes_to_key_example : length (evp_bytes_to_key toy (codes "foobar") 32) ≡ 32
length-evp_bytes_to_key_example = length-evp_bytes_to_key toy toy_laws (codes "foobar") 32
