-- ===== src/Logging/Rotation.antt =====
-- logging.rs, `set_log_file`: what the log file is after it has been opened.
use shadowvpn_ios.Prelude.{
  ℕ, ◌≤◌, ◌≡◌, refl, true, false, Option, none, some, List, [], length, ltb, arith, if◌then◌else◌,
}
use shadowvpn_ios.Config.{is_empty}
use shadowvpn_ios.Text.{Text, codes, text_eq}
use shadowvpn_ios.Files.{Os, put, file_len, rename, path_join}
use shadowvpn_ios.Files.Paths.{text_eq_self, text_eq-length, length-path_join}
use shadowvpn_ios.Logging.{
  Log, max_log_bytes, log_path, old_path, is_oversized, rotate, open_log, set_log_file,
}

paths_apart : (home : Text) → text_eq (log_path home) (old_path home) ≡ false
paths_apart home =
    let dir = path_join home (codes "logs") in
    let lengths = length-path_join dir (codes "svpn-tunnel.log") (codes "svpn-tunnel.log.1") in
    text_eq-length (log_path home) (old_path home) (λ e. omega arith)

paths_apart_back : (home : Text) → text_eq (old_path home) (log_path home) ≡ false
paths_apart_back home =
    let dir = path_join home (codes "logs") in
    let lengths = length-path_join dir (codes "svpn-tunnel.log") (codes "svpn-tunnel.log.1") in
    text_eq-length (old_path home) (log_path home) (λ e. omega arith)

-- What of a file stays under its name: all of it up to the bound, and nothing above.
abbrev pub content_kept : Option (List ℕ) → List ℕ
content_kept none = []
content_kept (some bytes) = if ltb max_log_bytes (length bytes) then [] else bytes

-- The operating system lets the directory be made and the file be renamed and opened.
abbrev pub IsWritable : Os → Text → Type 0
IsWritable os home =
    (is_empty home ≡ false)
    × (os.makes_dir (path_join home (codes "logs")) ≡ true)
    × (os.renames (log_path home) (old_path home) ≡ true)
    × (os.opens (log_path home) ≡ true)

-- The file under a path of the disk is moved or stays.
rotated_lem :
    (os : Os) (home : Text) (l : Log) (old : Option (List ℕ))
    → l.disk (log_path home) ≡ old
    → IsWritable os home
    → let l' = set_log_file os home l in
      (l'.file ≡ some (log_path home))
      × (l'.disk (log_path home) ≡ some (content_kept old))
      × (is_oversized (file_len l.disk (log_path home)) ≡ true → l'.disk (old_path home) ≡ old)
unfolding set_log_file rotate open_log rename file_len put
rotated_lem os home l old e (h, d, r, o) = ground (
  arith,
  e,
  h,
  d,
  r,
  o,
  text_eq_self (log_path home),
  text_eq_self (old_path home),
  paths_apart home,
  paths_apart_back home,
)

content_kept_le : (old : Option (List ℕ)) → length (content_kept old) ≤ max_log_bytes
content_kept_le none = omega arith
content_kept_le (some bytes) = ground arith

-- Where the directory can be made and the file renamed and opened, for a home directory that is not empty:
-- afterwards the handle stands for the log file, which holds what it held, or nothing if that was above
-- the bound, so never more than the bound; and what was above the bound is whole in the `.1` file.
pub set_log_file-bounded :
    (os : Os) (home : Text) (l : Log)
    → IsWritable os home
    → let l' = set_log_file os home l in
      let content = content_kept (l.disk (log_path home)) in
      (l'.file ≡ some (log_path home))
      × (l'.disk (log_path home) ≡ some content)
      × (length content ≤ max_log_bytes)
      × (is_oversized (file_len l.disk (log_path home)) ≡ true
          → l'.disk (old_path home) ≡ l.disk (log_path home))
set_log_file-bounded os home l w =
    let (f, d, r) = rotated_lem os home l (l.disk (log_path home)) refl w in
    (f, d, content_kept_le (l.disk (log_path home)), r)
