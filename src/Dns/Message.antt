-- ===== src/Dns/Message.antt =====
-- A DNS message as RFC 1035 lays it out, and the ones that the tests of vendor/dns.rs build.
pub mod Names
pub mod Records
pub mod Answers
pub mod Fixtures
pub mod Samples
mod Tests
use shadowvpn_ios.Prelude.{
  ℕ, ◌+◌, ◌*◌, ◌/◌, ◌%◌, ◌^◌, ◌≤◌, ◌<◌, Bool, ◌&&◌, List, [], ◌∷◌, ◌++◌, length, All, to_be16, be32,
  ◌==◌, if◌then◌else◌,
}
use shadowvpn_ios.Dns.{type_a, class_in}

-- A name ends with the root label or with a pointer to another name.
pub data NameEnd : Type 0 where
  root : NameEnd
  pointer : ℕ → ℕ → NameEnd

pub record Name : Type 0 where
  pub labels : List (List ℕ)
  pub ending : NameEnd

pub end_wire : NameEnd → List ℕ
end_wire root = 0 ∷ []
end_wire (pointer hi lo) = (0xC0 + hi) ∷ lo ∷ []

pub labels_wire : List (List ℕ) → NameEnd → List ℕ
labels_wire [] ending = end_wire ending
labels_wire (l ∷ ls) ending = length l ∷ (l ++ labels_wire ls ending)

abbrev pub name_wire : Name → List ℕ
name_wire n = labels_wire n.labels n.ending

pub record Question : Type 0 where
  pub qname : Name
  pub qtype : ℕ
  pub qclass : ℕ

pub record Answer : Type 0 where
  pub owner : Name
  pub rtype : ℕ
  pub rclass : ℕ
  pub ttl : ℕ
  pub rdata : List ℕ

abbrev pub to_be32 : ℕ → List ℕ
to_be32 n = to_be16 (n / 2 ^ 16) ++ to_be16 n

pub question_wire : Question → List ℕ
question_wire q = name_wire q.qname ++ (to_be16 q.qtype ++ to_be16 q.qclass)

-- What follows the owner's name.
pub record_wire : Answer → List ℕ
record_wire a =
    to_be16 a.rtype
    ++ (to_be16 a.rclass ++ (to_be32 a.ttl ++ (to_be16 (length a.rdata) ++ a.rdata)))

pub questions_wire : List Question → List ℕ
unfolding question_wire
questions_wire [] = []
questions_wire (q ∷ qs) = question_wire q ++ questions_wire qs

pub answers_wire : List Answer → List ℕ
unfolding record_wire
answers_wire [] = []
answers_wire (a ∷ rs) = name_wire a.owner ++ (record_wire a ++ answers_wire rs)

pub record Message : Type 0 where
  pub id : ℕ
  pub flags : ℕ
  pub questions : List Question
  pub answers : List Answer
  pub authorities : ℕ
  pub additionals : ℕ

pub header_wire : Message → List ℕ
header_wire m =
    to_be16 m.id
    ++ (to_be16 m.flags
        ++ (to_be16 (length m.questions)
            ++ (to_be16 (length m.answers) ++ (to_be16 m.authorities ++ to_be16 m.additionals))))

-- The message up to its answers.
unfoldable pub message_wire : Message → List ℕ
unfolding header_wire questions_wire answers_wire
message_wire m = header_wire m ++ (questions_wire m.questions ++ answers_wire m.answers)

abbrev pub IsWireLabel : List ℕ → Type 0
IsWireLabel l = (1 ≤ length l) × (length l ≤ 63)

pub IsNameEnd : NameEnd → Type 0
IsNameEnd root = Unit {0}
IsNameEnd (pointer hi lo) = (hi < 64) × (lo < 256)

pub record IsName (n : Name) : Type 0 where
  pub each_label : All IsWireLabel n.labels
  pub end_ok : IsNameEnd n.ending

pub record IsAnswer (a : Answer) : Type 0 where
  pub owner_ok : IsName a.owner
  pub rtype_ok : a.rtype < 65536
  pub rclass_ok : a.rclass < 65536
  pub ttl_ok : a.ttl < 2 ^ 32
  pub rdata_ok : length a.rdata < 65536

pub record IsMessage (m : Message) : Type 0 where
  pub question_count : length m.questions < 65536
  pub answer_count : length m.answers < 65536
  pub each_question : All (λ q. IsName q.qname) m.questions
  pub each_answer : All IsAnswer m.answers

-- The addresses that an answer gives: one for an A record of the Internet with four bytes.
pub four_bytes : List ℕ → List ℕ
four_bytes (a ∷ b ∷ c ∷ d ∷ []) = be32 a b c d ∷ []
four_bytes _ = []

pub address : Answer → List ℕ
address a = if a.rtype == type_a && a.rclass == class_in then four_bytes a.rdata else []

unfoldable pub addresses : List Answer → List ℕ
unfolding address four_bytes
addresses [] = []
addresses (a ∷ rs) = address a ++ addresses rs
