-- ===== src/Logging.antt =====
-- core/rust/shadowvpn-ios-ffi/src/logging.rs: the logger, its file and the file's rotation. The `log`
-- crate's own filter is a parameter; the unified log is the list of what it was given.
pub mod Mirror
pub mod Rotation
mod Tests
use shadowvpn_ios.Prelude.{
  ℕ, zero, suc, ◌+◌, ◌-◌, ◌*◌, ◌/◌, ◌%◌, Bool, true, false, Option, none, some, List, [], ◌∷◌, ◌++◌,
  take, length, ltb, leb, replicate, if◌then◌else◌,
}
use shadowvpn_ios.Text.{Text, codes, text_eq, as_bytes}
use shadowvpn_ios.Text.Print.{line_feed, show_u64}
use shadowvpn_ios.Files.{Disk, Os, put, file_len, rename, path_join}
use shadowvpn_ios.Config.{is_empty}

pub data Level : Type 0 where
  error warn info debug trace : Level

-- The order of the levels: errors come first.
abbrev pub rank : Level → ℕ
rank error = 1
rank warn = 2
rank info = 3
rank debug = 4
rank trace = 5

abbrev pub level_name : Level → Text
level_name error = codes "ERROR"
level_name warn = codes "WARN"
level_name info = codes "INFO"
level_name debug = codes "DEBUG"
level_name trace = codes "TRACE"

-- `os_log` is what the unified log was given, newest first; `file` is the path of the file that the
-- append handle stands for; `initialized` is `INIT`, `installed` whether the `log` crate took the logger, and
-- `hooked` is `INSTALLED`.
pub record Log : Type 0 where
  pub initialized : Bool
  pub installed : Bool
  pub hooked : Bool
  pub os_log : List (Level × Text)
  pub file : Option Text
  pub disk : Disk

abbrev pub max_log_bytes : ℕ
max_log_bytes = 512 * 1024

unfoldable pub enabled : Level → Bool
enabled level = leb (rank level) (rank debug)

-- `{:02}` of a number below 100
pub two_digits : ℕ → Text
two_digits n = (b'0' + n / 10) ∷ (b'0' + n % 10) ∷ []

-- `{:<5}`
pub pad_five : Text → Text
pad_five s = s ++ replicate (5 - length s) 0x20

unfoldable pub log_line : ℕ → Level → Text → Text
unfolding two_digits pad_five
log_line secs level msg =
    two_digits (secs / 3600 % 24)
    ++ b':'
      ∷ (two_digits (secs / 60 % 60)
          ++ b':'
            ∷ (two_digits (secs % 60)
                ++ 0x20 ∷ (pad_five (level_name level) ++ 0x20 ∷ (msg ++ line_feed ∷ []))))

-- A write at the end of an open file; an error leaves a part of it behind.
unfoldable pub append : Os → Text → List ℕ → Disk → Disk
unfolding put
append os path bytes disk = elim (disk path) [
  | none ↦ disk
  | some old ↦ elim (os.writes path) [
    | none ↦ put path (some (old ++ bytes)) disk
    | some n ↦ put path (some (old ++ take n bytes)) disk
  ]
]

-- The mirror of a record that is `info` or higher.
pub mirror : Os → ℕ → Level → Text → Log → Log
unfolding log_line append
mirror os secs level msg l = elim l.file [
  | none ↦ l
  | some path ↦ record l { disk = append os path (as_bytes (log_line secs level msg)) l.disk }
]

-- `Log::log`
unfoldable pub log : Os → ℕ → Level → Text → Log → Log
unfolding enabled mirror
log os secs level msg l =
    let l' = record l { os_log = (level, msg) ∷ l.os_log } in
    if enabled level
    then (if leb (rank level) (rank info) then mirror os secs level msg l' else l')
    else l

-- `init_os_logger`: once. `accepted` is whether `set_boxed_logger` takes the logger.
unfoldable pub init_os_logger : Bool → Log → Log
init_os_logger accepted l =
    if l.initialized then l else record l { initialized = true; installed = accepted }

-- What an open handle stands for after a rename.
pub moved : Text → Text → Option Text → Option Text
moved source target none = none
moved source target (some path) = some (if text_eq path source then target else path)

abbrev pub log_path : Text → Text
log_path home = path_join (path_join home (codes "logs")) (codes "svpn-tunnel.log")

abbrev pub old_path : Text → Text
old_path home = path_join (path_join home (codes "logs")) (codes "svpn-tunnel.log.1")

abbrev pub is_oversized : Option ℕ → Bool
is_oversized none = false
is_oversized (some len) = ltb max_log_bytes len

-- The rotation of a file that is too long. A handle on it follows it to its new name.
unfoldable pub rotate : Os → Text → Log → Log
unfolding moved
rotate os home l =
    let (renamed, disk') = rename os (log_path home) (old_path home) l.disk in
    if is_oversized (file_len l.disk (log_path home))
    then (if renamed
        then record l { disk = disk'; file = moved (log_path home) (old_path home) l.file }
        else l)
    else l

-- `OpenOptions::new().create(true).append(true).open(..)`
unfoldable pub open_log : Os → Text → Log → Log
open_log os path l =
    if os.opens path
    then record l {
      file = some path;
      disk = elim (l.disk path) [ none ↦ put path (some []) l.disk | some bytes ↦ l.disk ];
    }
    else l

unfoldable pub set_log_file : Os → Text → Log → Log
unfolding rotate open_log
set_log_file os home l =
    if is_empty home
    then l
    else if os.makes_dir (path_join home (codes "logs"))
    then open_log os (log_path home) (rotate os home l)
    else l

-- A record that a macro of the `log` crate makes; `passes` is the crate's filter.
unfoldable pub log_macro : (Bool → Level → Bool) → Os → ℕ → Level → Text → Log → Log
unfolding log
log_macro passes os secs level msg l =
    if passes l.installed level then log os secs level msg l else l

unfoldable pub bridge_log : (Bool → Level → Bool) → Os → ℕ → Text → Log → Log
unfolding log_macro
bridge_log passes os secs msg l = log_macro passes os secs info msg l

-- The payload of a panic.
pub data Payload : Type 0 where
  text_payload string_payload : Text → Payload
  other_payload : Payload

abbrev pub payload_message : Payload → Text
payload_message (text_payload s) = s
payload_message (string_payload s) = s
payload_message other_payload = codes "<non-string panic payload>"

-- `file:line:column`
abbrev pub location_text : Option (Text × ℕ × ℕ) → Text
location_text none = codes "<unknown>"
location_text (some (file, line, column)) = file ++ b':' ∷ (show_u64 line ++ b':' ∷ show_u64 column)

abbrev pub thread_text : Option Text → Text
thread_text none = codes "<unnamed>"
thread_text (some name) = name

pub panic_line : Option Text → Option (Text × ℕ × ℕ) → Payload → Text
panic_line thread location payload =
    codes "rust panic in thread '"
    ++ thread_text thread
    ++ codes "' at "
    ++ location_text location
    ++ codes ": "
    ++ payload_message payload

unfoldable pub install_panic_hook : Log → Log
install_panic_hook l = record l { hooked = true }

-- A panic: the hook, where it is installed, logs the message; then the process aborts.
unfoldable pub on_panic :
    (Bool → Level → Bool) → Os → ℕ → Option Text → Option (Text × ℕ × ℕ) → Payload → Log → Log
unfolding log_macro panic_line
on_panic passes os secs thread location payload l =
    if l.hooked then log_macro passes os secs error (panic_line thread location payload) l else l
