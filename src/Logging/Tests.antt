-- ===== src/Logging/Tests.antt =====
-- The logger on a small disk.
use shadowvpn_ios.Prelude.{
  ◌≤◌, ◌≡◌, refl, true, none, some, List, [], ◌∷◌, ◌++◌, length, replicate, if◌then◌else◌,
}
use shadowvpn_ios.Text.{codes, text_eq}
use shadowvpn_ios.Files.{Disk, file_len}
use shadowvpn_ios.Country.Cache.Samples.{willing}
use shadowvpn_ios.Logging.{
  error, info, debug, trace, Log, log_line, two_digits, pad_five, max_log_bytes, log_path, old_path,
  is_oversized, set_log_file,
}
use shadowvpn_ios.Logging.Mirror.{Record, log_all, mirrored, IsOpen, log_all-IsOpen}
use shadowvpn_ios.Logging.Rotation.{content_kept, set_log_file-bounded}

-- 01:02:03 on the first day
line_runs : log_line 3723 info (codes "up") ≡ codes "01:02:03 INFO  up\n"
unfolding log_line two_digits pad_five
line_runs = refl

abbrev disk : Disk
disk p = if text_eq p (codes "log") then some (b'x' ∷ []) else none

abbrev logger : Log
logger = record {
  initialized = true;
  installed = true;
  hooked = true;
  os_log = [];
  file = some (codes "log");
  disk = disk;
}

abbrev records : List Record
records = (1, info, codes "a") ∷ (2, debug, codes "b") ∷ (3, error, codes "c") ∷ (4, trace, []) ∷ []

log_all-IsOpen_example :
    IsOpen (codes "log") ((b'x' ∷ []) ++ mirrored records) (log_all willing records logger)
log_all-IsOpen_example =
    log_all-IsOpen willing records (codes "log") (b'x' ∷ []) logger refl (refl, refl)

-- A log file of three bytes.
abbrev short_logger : Log
short_logger = record logger {
  disk = λ p. if text_eq p (log_path (codes "h")) then some (replicate 3 0) else none;
}

set_log_file-bounded_example :
    let l' = set_log_file willing (codes "h") short_logger in
    let content = content_kept (short_logger.disk (log_path (codes "h"))) in
    (l'.file ≡ some (log_path (codes "h")))
    × (l'.disk (log_path (codes "h")) ≡ some content)
    × (length content ≤ max_log_bytes)
    × (is_oversized (file_len short_logger.disk (log_path (codes "h"))) ≡ true
        → l'.disk (old_path (codes "h")) ≡ short_logger.disk (log_path (codes "h")))
set_log_file-bounded_example =
    set_log_file-bounded willing (codes "h") short_logger (refl, refl, refl, refl)
