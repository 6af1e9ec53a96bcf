-- ===== src/Files.antt =====
-- The part of `std::fs` and `std::path` that the code uses. A disk is what stands at each path; what the
-- operating system refuses is in `Os`.
pub mod Paths
use mathlib.Core.List.{reverse}
use shadowvpn_ios.Prelude.{
  ℕ, Bool, true, false, ◌||◌, Option, none, some, List, [], ◌∷◌, ◌++◌, take, length, ◌==◌,
  if◌then◌else◌,
}
use shadowvpn_ios.Text.{Text, text_eq}

-- The regular files, as bytes.
abbrev pub Disk : Type 0
Disk = Text → Option (List ℕ)

-- `writes path` is `none` where a write succeeds, and otherwise how many bytes it left behind.
-- `error_text` is the text of an I/O error.
pub record Os : Type 0 where
  pub makes_dir : Text → Bool
  pub writes : Text → Option ℕ
  pub renames : Text → Text → Bool
  pub reads : Text → Bool
  pub opens : Text → Bool
  pub error_text : Text

-- The disk with `content` at `path`.
unfoldable pub put : Text → Option (List ℕ) → Disk → Disk
put path content disk p = if text_eq p path then content else disk p

-- `fs::metadata(path)?.len()`
unfoldable pub file_len : Disk → Text → Option ℕ
file_len disk path = elim (disk path) [ none ↦ none | some bytes ↦ some (length bytes) ]

-- `fs::read`
unfoldable pub read : Os → Disk → Text → Option (List ℕ)
read os disk path = if os.reads path then disk path else none

-- `fs::write`: whether it succeeded, and the disk. A file that cannot be opened stays as it is.
unfoldable pub write : Os → Text → List ℕ → Disk → Bool × Disk
unfolding put
write os path bytes disk =
    if os.opens path
    then elim (os.writes path) [
      | none ↦ (true, put path (some bytes) disk)
      | some n ↦ (false, put path (some (take n bytes)) disk)
    ]
    else (false, disk)

-- `fs::rename`, which replaces what stands at the target in one step.
unfoldable pub rename : Os → Text → Text → Disk → Bool × Disk
unfolding put
rename os source target disk = elim (disk source) [
  | none ↦ (false, disk)
  | some bytes ↦
      if os.renames source target
      then (true, put target (some bytes) (put source none disk))
      else (false, disk)
]

unfoldable pub ends_in_slash : Text → Bool
ends_in_slash [] = false
ends_in_slash (c ∷ []) = c == b'/'
ends_in_slash (c ∷ d ∷ s) = ends_in_slash (d ∷ s)

-- `Path::join` with a relative name.
unfoldable pub path_join : Text → Text → Text
unfolding ends_in_slash
path_join [] name = name
path_join (c ∷ dir) name =
    if ends_in_slash (c ∷ dir) then (c ∷ dir) ++ name else (c ∷ dir) ++ b'/' ∷ name

-- The file's name without its extension, from a path that is read backwards: `none` where a `/` comes
-- before a dot, or where the dot starts the name.
unfoldable pub drop_extension : Text → Option Text
drop_extension [] = none
drop_extension (c ∷ s) =
    let rest = drop_extension s in if c == b'/' then none else if c == b'.' then stem s else rest
  where
    stem : Text → Option Text
    stem [] = none
    stem (d ∷ t) = if d == b'/' then none else some (d ∷ t)

-- `Path::with_extension`, of a path that ends in a file name.
unfoldable pub with_extension : Text → Text → Text
unfolding drop_extension
with_extension path extension = elim (drop_extension (reverse path)) [
  | none ↦ path ++ b'.' ∷ extension
  | some stem ↦ reverse stem ++ b'.' ∷ extension
]
