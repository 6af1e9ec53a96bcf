-- ===== src/Inspect/Request.antt =====
-- An HTTP/1.x request head as RFC 9112 lays it out: a request line and header fields, each ended by
-- CR LF.
pub mod Lines
pub mod Host
use shadowvpn_ios.Prelude.{
  ℕ, ◌<◌, ◌≢◌, Bool, ◌&&◌, not, List, [], ◌∷◌, ◌++◌, length, All, ◌==◌, if◌then◌else◌,
}
use shadowvpn_ios.Prelude.Outcome.{Outcome, ret, nothing}
use shadowvpn_ios.Text.{Text, codes, text_eq, trim}
use shadowvpn_ios.Text.Utf8.{to_ascii_lowercase}

pub record Field : Type 0 where
  pub name : List ℕ
  pub value : List ℕ

pub record Request : Type 0 where
  pub method : Text
  pub target : List ℕ
  pub fields : List Field

abbrev pub crlf : List ℕ
crlf = 13 ∷ 10 ∷ []

pub field_line : Field → List ℕ
field_line f = f.name ++ (b':' ∷ f.value)

pub field_lines : List Field → List ℕ
unfolding field_line
field_lines [] = []
field_lines (f ∷ fs) = field_line f ++ (13 ∷ 10 ∷ field_lines fs)

unfoldable pub request_head : Request → List ℕ
unfolding field_lines
request_head r = (r.method ++ r.target) ++ (13 ∷ 10 ∷ field_lines r.fields)

-- ASCII that ends no line.
abbrev pub IsInLine : ℕ → Type 0
IsInLine c = (c < 128) × (c ≢ 13)

pub record IsField (f : Field) : Type 0 where
  pub name_ok : All IsInLine f.name
  pub no_colon : All (λ c. c ≢ b':') f.name
  pub value_ok : All IsInLine f.value

-- A field whose name is Host in any case and whose value is not blank.
pub names_host : Field → Bool
names_host f =
    text_eq (to_ascii_lowercase f.name) (codes "host") && not (length (trim f.value) == 0)

-- The value of the first such field.
unfoldable pub host_of : List Field → Outcome (List ℕ)
unfolding names_host
host_of [] = nothing
host_of (f ∷ fs) = if names_host f then ret (trim f.value) else host_of fs
