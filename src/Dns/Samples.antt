-- ===== src/Dns/Samples.antt =====
-- Messages like those of the unit tests of dns.rs, and what the functions return on them.
use shadowvpn_ios.Prelude.{◌≡◌, refl, List, ℕ, [], ◌∷◌, ◌++◌}
use shadowvpn_ios.Prelude.Outcome.{ret, index}
use shadowvpn_ios.Text.{codes, split}
use shadowvpn_ios.Text.Utf8.{from_utf8_lossy}
use shadowvpn_ios.Dns.{
  build_query, question, read_loop, read_name, read_u16, min_ttl, ttl_loop, a_loop, a_records,
  skip_questions, skip_name,
}

abbrev pub query : List ℕ
query =
    0x12 ∷ 0x34 ∷ 0x81 ∷ 0x80 ∷ 0 ∷ 1 ∷ 0 ∷ 2 ∷ 0 ∷ 0 ∷ 0 ∷ 0 ∷ 1 ∷ b'A' ∷ 1 ∷ b'b' ∷ 0 ∷ 0 ∷ 1 ∷ 0
    ∷ 1 ∷ []

-- The same question for AAAA.
abbrev pub aaaa_query : List ℕ
aaaa_query =
    0x12 ∷ 0x34 ∷ 1 ∷ 0 ∷ 0 ∷ 1 ∷ 0 ∷ 0 ∷ 0 ∷ 0 ∷ 0 ∷ 0 ∷ 1 ∷ b'A' ∷ 1 ∷ b'b' ∷ 0 ∷ 0 ∷ 28 ∷ 0 ∷ 1
    ∷ []

abbrev answer : ℕ → ℕ → List ℕ
answer ttl ip = 0xC0 ∷ 0x0C ∷ 0 ∷ 1 ∷ 0 ∷ 1 ∷ 0 ∷ 0 ∷ 0 ∷ ttl ∷ 0 ∷ 4 ∷ ip ∷ 2 ∷ 3 ∷ 4 ∷ []

abbrev pub response : List ℕ
response = query ++ answer 200 1 ++ answer 60 5

build_query_runs :
    question (build_query 0xABCD (codes "www.Example.com")) ≡ ret (codes "www.example.com", 1, 1)
unfolding question read_name read_loop read_u16 build_query split from_utf8_lossy index
build_query_runs = refl

pub aaaa_runs : question aaaa_query ≡ ret (codes "a.b", 28, 1)
unfolding question read_name read_loop read_u16 from_utf8_lossy index
aaaa_runs = refl

pub query_runs : question query ≡ ret (codes "a.b", 1, 1)
unfolding question read_name read_loop read_u16 from_utf8_lossy index
query_runs = refl

question_runs : question response ≡ ret (codes "a.b", 1, 1)
unfolding question read_name read_loop read_u16 from_utf8_lossy index
question_runs = refl

min_ttl_runs : min_ttl response ≡ ret 60
unfolding min_ttl ttl_loop skip_questions skip_name read_u16 index
min_ttl_runs = refl

pub a_records_runs : a_records response ≡ ret (0x01020304 ∷ 0x05020304 ∷ [])
unfolding a_records a_loop skip_questions skip_name read_u16 index
a_records_runs = refl
