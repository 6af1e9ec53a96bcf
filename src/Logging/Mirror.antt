-- ===== src/Logging/Mirror.antt =====
-- logging.rs, `Log::log`: which records reach the file, and in what form.
use shadowvpn_ios.Prelude.{
  ℕ, ◌+◌, ◌-◌, ◌*◌, ◌%◌, ◌≡◌, refl, sym, subst, none, some, List, [], ◌∷◌, ◌++◌, append-nil,
  append_assoc, leb, arith, if◌then◌else◌,
}
use shadowvpn_ios.Text.{Text, as_bytes}
use shadowvpn_ios.Files.{Os, put}
use shadowvpn_ios.Files.Paths.{text_eq_self}
use shadowvpn_ios.Logging.{
  Level, error, warn, info, debug, trace, rank, Log, enabled, two_digits, log_line, append, mirror,
  log,
}

-- A `trace` record changes nothing, and a `debug` record reaches the unified log alone.
pub log_levels :
    (os : Os) (secs : ℕ) (msg : Text) (l : Log)
    → (log os secs trace msg l ≡ l)
      × (log os secs debug msg l ≡ record l { os_log = (debug, msg) ∷ l.os_log })
unfolding log enabled
log_levels os secs msg l = (refl, refl)

-- A record of a call of the logger: its time, its level and its message.
abbrev pub Record : Type 0
Record = ℕ × Level × Text

-- The logger's calls, oldest first.
abbrev pub log_all : Os → List Record → Log → Log
log_all os [] l = l
log_all os ((secs, level, msg) ∷ rs) l = log_all os rs (log os secs level msg l)

-- The bytes of the lines of the records that are `info` or higher.
abbrev pub mirrored : List Record → List ℕ
mirrored [] = []
mirrored ((secs, level, msg) ∷ rs) =
    if leb (rank level) 3 then as_bytes (log_line secs level msg) ++ mirrored rs else mirrored rs

-- The handle stands for a file with the content.
abbrev pub IsOpen : Text → List ℕ → Log → Type 0
IsOpen path content l = (l.file ≡ some path) × (l.disk path ≡ some content)

-- The content after one record.
abbrev after_record : Record → List ℕ → List ℕ
after_record (secs, level, msg) content =
    if leb (rank level) 3 then content ++ as_bytes (log_line secs level msg) else content

log-IsOpen :
    (os : Os) (secs : ℕ) (level : Level) (msg path : Text) (content : List ℕ) (l : Log)
    → os.writes path ≡ none
    → IsOpen path content l
    → IsOpen path (after_record (secs, level, msg) content) (log os secs level msg l)
unfolding log enabled mirror append put
log-IsOpen os secs error msg path content l w (f, d) = ground (arith, w, f, d, text_eq_self path)
log-IsOpen os secs warn msg path content l w (f, d) = ground (arith, w, f, d, text_eq_self path)
log-IsOpen os secs info msg path content l w (f, d) = ground (arith, w, f, d, text_eq_self path)
log-IsOpen os secs debug msg path content l w (f, d) = (f, d)
log-IsOpen os secs trace msg path content l w (f, d) = (f, d)

mirrored-cons :
    (r : Record) (rs : List Record) (content : List ℕ)
    → after_record r content ++ mirrored rs ≡ content ++ mirrored (r ∷ rs)
mirrored-cons (secs, error, msg) rs content =
    append_assoc content (as_bytes (log_line secs error msg)) (mirrored rs)
mirrored-cons (secs, warn, msg) rs content =
    append_assoc content (as_bytes (log_line secs warn msg)) (mirrored rs)
mirrored-cons (secs, info, msg) rs content =
    append_assoc content (as_bytes (log_line secs info msg)) (mirrored rs)
mirrored-cons (secs, debug, msg) rs content = refl
mirrored-cons (secs, trace, msg) rs content = refl

-- While a file is open and its writes succeed, any records at all, in any order of levels, leave in it
-- what it had, followed by the lines of exactly the records that are `info` or higher, in their order.
pub log_all-IsOpen :
    (os : Os) (records : List Record) (path : Text) (content : List ℕ) (l : Log)
    → os.writes path ≡ none
    → IsOpen path content l
    → IsOpen path (content ++ mirrored records) (log_all os records l)
log_all-IsOpen os [] path content l w h = subst (λ c. IsOpen path c l) (sym (append-nil content)) h
log_all-IsOpen os ((secs, level, msg) ∷ rs) path content l w h =
    let next = log os secs level msg l in
    subst (λ c. IsOpen path c (log_all os rs next)) (mirrored-cons (secs, level, msg) rs content)
      (log_all-IsOpen os rs path (after_record (secs, level, msg) content) next w
        (log-IsOpen os secs level msg path content l w h))

-- A digit's value.
abbrev pub digit : ℕ → ℕ
digit c = c - 48

abbrev pub number : ℕ → ℕ → ℕ
number c d = digit c * 10 + digit d

-- The time at the front of a line: hours, minutes and seconds, after one another in two digits each, with
-- colons between them.
abbrev pub time_of : Text → ℕ
time_of (h1 ∷ h2 ∷ c ∷ m1 ∷ m2 ∷ d ∷ s1 ∷ s2 ∷ rest) =
    number h1 h2 * 3600 + number m1 m2 * 60 + number s1 s2
time_of s = 0

-- The first eight characters of a line give back the second of the day, for every time.
time_of-log_line :
    (secs : ℕ) (level : Level) (msg : Text) → time_of (log_line secs level msg) ≡ secs % 86400
unfolding log_line two_digits
time_of-log_line secs level msg = omega arith
