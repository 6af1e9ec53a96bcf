-- ===== src/Chnroute/Load.antt =====
-- policy/chnroute.rs, `load`: the table of a file.
use shadowvpn_ios.Prelude.{◌≡◌, refl, ap, true, Option, none, some, All, if◌then◌else◌}
use shadowvpn_ios.Text.{Text, as_bytes}
use shadowvpn_ios.Text.Utf8.{is_utf8, chars}
use shadowvpn_ios.Text.Utf8.Decoded.{IsScalar, chars-as_bytes}
use shadowvpn_ios.Text.Print.{lines}
use shadowvpn_ios.Files.{Disk, Os, read}
use shadowvpn_ios.Chnroute.{ChnRoute}
use shadowvpn_ios.Chnroute.Cidr.{from_lines}

-- `read_to_string`: the file has to be UTF-8.
unfoldable pub read_to_string : Os → Disk → Text → Option Text
read_to_string os disk path = elim (read os disk path) [
  | none ↦ none
  | some bytes ↦ if is_utf8 bytes then some (chars bytes) else none
]

unfoldable pub load : Os → Disk → Text → Option ChnRoute
load os disk path = elim (read_to_string os disk path) [
  | none ↦ none
  | some text ↦ some (from_lines (lines text))
]

read_to_string-as_bytes :
    (os : Os) (disk : Disk) (path text : Text)
    → os.reads path ≡ true
    → disk path ≡ some (as_bytes text)
    → All IsScalar text
    → read_to_string os disk path ≡ some text
unfolding read_to_string read
read_to_string-as_bytes os disk path text r d a =
    let (valid, same) = chars-as_bytes text a in rw (r, d, valid, read_to_string) (ap some same)

-- A file that holds a text is loaded as the lines of the text.
pub load-as_bytes :
    (os : Os) (disk : Disk) (path text : Text)
    → os.reads path ≡ true
    → disk path ≡ some (as_bytes text)
    → All IsScalar text
    → load os disk path ≡ some (from_lines (lines text))
unfolding load
load-as_bytes os disk path text r d a =
    rw (read_to_string-as_bytes os disk path text r d a, load) refl
