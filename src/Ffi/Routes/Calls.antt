-- ===== src/Ffi/Routes/Calls.antt =====
-- lib.rs, `svpn_country_cidrs_file`: its result on every branch.
use shadowvpn_ios.Prelude.{
  ℕ, zero, suc, ◌-◌, ◌%◌, ◌^◌, ◌≤◌, ◌<◌, ◌≡◌, ◌⊎◌, refl, sym, ap, subst, ◌∙◌, false, ◌==◌, Option,
  none, some, List, take, drop, length, arith, Option-cases,
}
use shadowvpn_ios.Prelude.Result.{Result, ok, err}
use shadowvpn_ios.Text.{Text, codes, as_bytes}
use shadowvpn_ios.Country.{
  CountryError, empty_code, no_networks, stat_mmdb, create_dir, read_mmdb, write_file, rename_file,
  open_mmdb, iterate, decode_network, read_network, decode_country,
}
use shadowvpn_ios.Country.Cache.{Reader, ensure_country_file}
use shadowvpn_ios.Engine.Session.{ℤ, pos, negsuc}
use shadowvpn_ios.Ffi.{Host, Env, cstr_to_str, from_ptr, svpn_core_last_error, set_error, fail}
use shadowvpn_ios.Ffi.Failures.{
  Failed, set_error-Failed, fail-Failed, NonEmpty, to_cstring-NonEmpty,
}
use shadowvpn_ios.Ffi.Strings.{IsCString}
use shadowvpn_ios.Ffi.Routes.Buffer.{copy_out-Bounded}
use shadowvpn_ios.Ffi.Routes.{
  country_message, to_c_int, copy_out, write_out, answer_path, with_paths, svpn_country_cidrs_file,
}

-- A result of the C interface: the code and the buffer, and the state.
abbrev pub Reply : Type 0
Reply = (ℤ × Option (List ℕ)) × Host

-- The reply to a path: its length, the buffer with as much of it as fits, and no new error.
abbrev pub Answered : Text → Option (List ℕ) → ℤ → Host → Reply → Type 0
Answered path out room h (answer, h') =
    (answer ≡ (to_c_int (length (as_bytes path)), write_out (as_bytes path) out room))
    × (h'.last_error ≡ h.last_error)
    × (h'.process ≡ h.process)

-- The reply to an error: -1, the buffer untouched, and the message kept for the thread.
abbrev pub Refused : Env → Text → Option (List ℕ) → Host → Reply → Type 0
Refused env msg out h (answer, h') = (answer ≡ (negsuc 0, out)) × Failed env msg h h'

abbrev Decides : Env → Option (List ℕ) → ℤ → Host → Result CountryError Text → Reply → Type 0
Decides env out room h (ok path) reply = Answered path out room h reply
Decides env out room h (err e) reply = Refused env (country_message env.os.error_text e) out h reply

Decides-reply :
    (env : Env) (out : Option (List ℕ)) (room : ℤ) (h h' : Host) (result : Result CountryError Text)
    → h'.last_error ≡ h.last_error
    → h'.process ≡ h.process
    → Decides env out room h result (elim result [
      | err e ↦
          let msg = country_message env.os.error_text e in
          ((negsuc 0, out), fail env (codes "svpn_country_cidrs_file ERROR: ") msg h')
      | ok path ↦ (answer_path path out room, h')
    ])
unfolding answer_path
Decides-reply env out room h h' (ok path) e p = (refl, e, p)
Decides-reply env out room h h' (err x) e p =
    let msg = country_message env.os.error_text x in
    let (last, others, same) = fail-Failed env (codes "svpn_country_cidrs_file ERROR: ") msg h' in
    (refl, (last, λ t n. others t n ∙ ap (λ f. f t) e, same ∙ p))

with_paths-Decides :
    (env : Env) (reader : Reader) (mmdb country dir : Text) (out : Option (List ℕ)) (room : ℤ)
    (h : Host)
    → Decides env out room h
        (ensure_country_file reader env.os mmdb country dir h.log.disk).0
        (with_paths env reader mmdb country dir out room h)
unfolding with_paths
with_paths-Decides env reader mmdb country dir out room h =
    let (result, disk) = ensure_country_file reader env.os mmdb country dir h.log.disk in
    Decides-reply env out room h (record h { log = record h.log { disk = disk } }) result refl refl

reply-Decides :
    (env : Env) (reader : Reader) (a b c out : Option (List ℕ)) (room : ℤ) (h : Host)
    (mmdb country dir : Text)
    → cstr_to_str a ≡ some mmdb
    → cstr_to_str b ≡ some country
    → cstr_to_str c ≡ some dir
    → Decides env out room h
        (ensure_country_file reader env.os mmdb country dir h.log.disk).0
        (svpn_country_cidrs_file env reader a b c out room h)
unfolding svpn_country_cidrs_file
reply-Decides env reader a b c out room h mmdb country dir ea eb ec =
    let e : svpn_country_cidrs_file env reader a b c out room h
        ≡ with_paths env reader mmdb country dir out room h =
      rw (ea, eb, ec, svpn_country_cidrs_file) in
    subst (Decides env out room h (ensure_country_file reader env.os mmdb country dir h.log.disk).0)
      (sym e) (with_paths-Decides env reader mmdb country dir out room h)

country_message-NonEmpty : (text : Text) (e : CountryError) → NonEmpty (country_message text e)
unfolding country_message
country_message-NonEmpty text empty_code = tt
country_message-NonEmpty text (no_networks code) = tt
country_message-NonEmpty text (stat_mmdb path) = tt
country_message-NonEmpty text (create_dir path) = tt
country_message-NonEmpty text (read_mmdb path) = tt
country_message-NonEmpty text (write_file path) = tt
country_message-NonEmpty text (rename_file path) = tt
country_message-NonEmpty text (open_mmdb x) = tt
country_message-NonEmpty text (iterate x) = tt
country_message-NonEmpty text (decode_network x) = tt
country_message-NonEmpty text (read_network x) = tt
country_message-NonEmpty text (decode_country x) = tt

-- What a caller with `cap` bytes of room in `memory` gets of a path: its length, and in the buffer the C
-- string of its first `cap - 1` bytes; the memory keeps its length, and what is behind the buffer stays.
abbrev pub Delivers : Text → List ℕ → ℕ → ℤ × Option (List ℕ) → Type 0
Delivers path memory cap (z, out) =
    (z ≡ pos (length (as_bytes path)))
    × ((after : List ℕ) × (out ≡ some after)
        × (length after ≡ length memory)
        × (drop cap after ≡ drop cap memory)
        × (from_ptr after ≡ take (cap - 1) (as_bytes path)))

-- What it gets of an error: -1, the memory as it was, and a message to read for this thread only.
abbrev pub Refuses : Env → List ℕ → Host → Reply → Type 0
Refuses env memory h ((z, out), h') =
    (z ≡ negsuc 0)
    × (out ≡ some memory)
    × NonEmpty (svpn_core_last_error env h')
    × ((t : ℕ) → (t == env.thread) ≡ false → h'.last_error t ≡ h.last_error t)

-- What the call does of the result of `ensure_country_file`.
abbrev pub Follows : Env → List ℕ → ℕ → Host → Result CountryError Text → Reply → Type 0
Follows env memory cap h (ok path) (answer, h') =
    Delivers path memory cap answer × (h'.last_error ≡ h.last_error)
Follows env memory cap h (err e) reply = Refuses env memory h reply

to_c_int_small : (n : ℕ) → n < 2 ^ 31 → to_c_int n ≡ pos n
unfolding to_c_int
to_c_int_small n h = let e : n % 2 ^ 32 ≡ n = omega arith in ground (arith, e)

Decides-Follows :
    (env : Env) (memory : List ℕ) (cap : ℕ) (h : Host) (result : Result CountryError Text)
    (reply : Reply)
    → 0 < cap
    → cap ≤ length memory
    → ((path : Text)
        → result ≡ ok path
        → IsCString (as_bytes path) × (length (as_bytes path) < 2 ^ 31))
    → Decides env (some memory) (pos cap) h result reply
    → Follows env memory cap h result reply
unfolding write_out svpn_core_last_error
Decides-Follows env memory zero h result reply room fits fine d = absurd (omega arith)
Decides-Follows env memory (suc n) h (ok path) reply room fits fine (answer, quiet, same) =
    let (nul, short) = fine path refl in
    let bytes = as_bytes path in
    let (len, behind, content) = copy_out-Bounded bytes memory (suc n) room fits nul in
    (
      (
        ap (λ r. r.0) answer ∙ to_c_int_small (length bytes) short,
        (copy_out bytes (suc n) memory, ap (λ r. r.1) answer, len, behind, content),
      ),
      quiet,
    )
Decides-Follows env memory (suc n) h (err e) reply room fits fine (answer, (last, others, same)) = (
  ap (λ r. r.0) answer,
  ap (λ r. r.1) answer,
  subst NonEmpty (sym last) (to_cstring-NonEmpty _ (country_message-NonEmpty env.os.error_text e)),
  others,
)

-- With three strings that can be read and a buffer of `cap` bytes, at least one, in the caller's memory,
-- the result of `ensure_country_file` decides the reply. A path, without a NUL and shorter than 2^31
-- bytes, gives its length; the buffer then holds the C string of its first `cap - 1` bytes, the memory
-- keeps its length and what is behind the buffer, and no thread has a new error. An error gives -1, leaves
-- the memory alone, and leaves the calling thread, and no other, a message that is not empty.
pub svpn_country_cidrs_file-Decides :
    (env : Env) (reader : Reader) (a b c : Option (List ℕ)) (memory : List ℕ) (cap : ℕ) (h : Host)
    (mmdb country dir : Text)
    → cstr_to_str a ≡ some mmdb
    → cstr_to_str b ≡ some country
    → cstr_to_str c ≡ some dir
    → 0 < cap
    → cap ≤ length memory
    → ((path : Text)
        → (ensure_country_file reader env.os mmdb country dir h.log.disk).0 ≡ ok path
        → IsCString (as_bytes path) × (length (as_bytes path) < 2 ^ 31))
    → Follows env memory cap h
        (ensure_country_file reader env.os mmdb country dir h.log.disk).0
        (svpn_country_cidrs_file env reader a b c (some memory) (pos cap) h)
svpn_country_cidrs_file-Decides env reader a b c memory cap h mmdb country dir ea eb ec room fits
      fine =
    Decides-Follows env memory cap h
      (ensure_country_file reader env.os mmdb country dir h.log.disk).0
      (svpn_country_cidrs_file env reader a b c (some memory) (pos cap) h) room fits fine
      (reply-Decides env reader a b c (some memory) (pos cap) h mmdb country dir ea eb ec)

-- One of the strings is null or no UTF-8.
abbrev pub Unreadable : Option (List ℕ) → Option (List ℕ) → Option (List ℕ) → Type 0
Unreadable a b c = (cstr_to_str a ≡ none) ⊎ (cstr_to_str b ≡ none) ⊎ (cstr_to_str c ≡ none)

-- A string that is null or no UTF-8 gives -1, leaves the buffer and the disk alone, and is the last error
-- of the calling thread and of no other.
svpn_country_cidrs_file-Refused :
    (env : Env) (reader : Reader) (a b c out : Option (List ℕ)) (room : ℤ) (h : Host)
    → Unreadable a b c
    → Refused env
        (codes "svpn_country_cidrs_file: a NULL / non-utf-8 argument")
        out
        h
        (svpn_country_cidrs_file env reader a b c out room h)
unfolding svpn_country_cidrs_file
svpn_country_cidrs_file-Refused env reader a b c out room h u =
    let msg = codes "svpn_country_cidrs_file: a NULL / non-utf-8 argument" in
    let refused : svpn_country_cidrs_file env reader a b c out room h
        ≡ ((negsuc 0, out), set_error env msg h) =
      ground (arith, u, Option-cases (cstr_to_str a), Option-cases (cstr_to_str b)) in
    subst (Refused env msg out h) (sym refused) (refl, set_error-Failed env msg h)
