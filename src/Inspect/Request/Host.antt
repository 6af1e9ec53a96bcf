-- ===== src/Inspect/Request/Host.antt =====
-- inspect.rs: `http_host` on a request that keeps to the format.
use shadowvpn_ios.Prelude.{
  ℕ, zero, suc, ◌-◌, ◌≤◌, ◌≡◌, refl, sym, ap, ◌∙◌, false, List, [], ◌∷◌, ◌++◌, length, min, take,
  leb, append_assoc, length-append, subst, Any, All, All-append, arith, inl, inr,
}
use shadowvpn_ios.Prelude.Outcome.{ret, ◌>>=◌}
use shadowvpn_ios.Text.{Text, trim_end}
use shadowvpn_ios.Text.Utf8.{IsAscii, from_utf8_lossy, from_utf8_lossy-append}
use shadowvpn_ios.Inspect.{methods, starts_with, find_method, split_crlf, host_loop, http_host}
use shadowvpn_ios.Inspect.Request.{
  Field, Request, field_line, field_lines, request_head, IsInLine, IsField, host_of,
}
use shadowvpn_ios.Inspect.Request.Lines.{
  split_crlf-line, host_loop_step, and_false, field_line-IsAscii, in_line-IsAscii,
  host_loop-host_of, is_host_line,
}

-- What the eight methods have in common.
record IsMethodName (m : Text) : Type 0 where
  found : (t : List ℕ) → find_method methods (m ++ t) ≡ ret (trim_end m)
  no_host : (t : List ℕ) → is_host_line (m ++ t) ≡ false
  in_line : All IsInLine m

methods-IsMethodName : All IsMethodName methods
unfolding find_method starts_with
methods-IsMethodName = (
  record { found = λ t. refl; no_host = λ t. refl; in_line = omega arith },
  (
    record { found = λ t. refl; no_host = λ t. refl; in_line = omega arith },
    (
      record { found = λ t. refl; no_host = λ t. refl; in_line = omega arith },
      (
        record { found = λ t. refl; no_host = λ t. refl; in_line = omega arith },
        (
          record { found = λ t. refl; no_host = λ t. refl; in_line = omega arith },
          (
            record { found = λ t. refl; no_host = λ t. refl; in_line = omega arith },
            (
              record { found = λ t. refl; no_host = λ t. refl; in_line = omega arith },
              (record { found = λ t. refl; no_host = λ t. refl; in_line = omega arith }, tt),
            ),
          ),
        ),
      ),
    ),
  ),
)

-- What each element has, an element has.
All-Any : (P : Text → Type 0) (m : Text) (ms : List Text) → All P ms → Any (λ k. m ≡ k) ms → P m
All-Any P m [] h any = absurd any
All-Any P m (k ∷ ms) (hk, h) (inl e) = subst P (sym e) hk
All-Any P m (k ∷ ms) (hk, h) (inr any) = All-Any P m ms h any

take-append_more :
    (n : ℕ) (xs ys : List ℕ) → length xs ≤ n → take n (xs ++ ys) ≡ xs ++ take (n - length xs) ys
take-append_more n [] ys h = ap (λ k. take k ys) (omega arith)
take-append_more zero (x ∷ xs) ys h = absurd (omega arith)
take-append_more (suc n) (x ∷ xs) ys h =
    let same : suc n - suc (length xs) ≡ n - length xs = omega arith in
    rw (same, take-append_more n xs ys (omega arith)) refl

http_host_finds :
    (b head : List ℕ) (method : Text) (host : List ℕ)
    → from_utf8_lossy (take (min (length b) 1024) b) ≡ head
    → find_method methods head ≡ ret method
    → host_loop (split_crlf head) ≡ ret host
    → http_host b ≡ ret (method, host)
unfolding http_host
http_host_finds b head method host e m h = rw (e, http_host) (rw (m, ◌>>=◌) (rw (h, ◌>>=◌) refl))

field_lines-IsAscii : (fs : List Field) → All IsField fs → All IsAscii (field_lines fs)
unfolding field_lines
field_lines-IsAscii [] h = tt
field_lines-IsAscii (f ∷ fs) (v, vs) =
    All-append IsAscii (field_line f) (13 ∷ 10 ∷ field_lines fs) (field_line-IsAscii f v)
      (omega arith, (omega arith, field_lines-IsAscii fs vs))

-- An ASCII request with a method that the code knows and whose fields name a host, with anything behind
-- them: where the head fits into 1024 bytes, the method and the value of the first such field are found.
pub http_host-request_head :
    (r : Request) (rest host : List ℕ)
    → Any (λ m. r.method ≡ m) methods
    → All IsInLine r.target
    → All IsField r.fields
    → length (request_head r) ≤ 1024
    → host_of r.fields ≡ ret host
    → http_host (request_head r ++ rest) ≡ ret (trim_end r.method, host)
unfolding request_head
http_host-request_head r rest host known target fields short e =
    let m = All-Any IsMethodName r.method methods methods-IsMethodName known in
    let start = r.method ++ r.target in
    let start_in_line = All-append IsInLine r.method r.target m.in_line target in
    let head = request_head r in
    let n = min (length (head ++ rest)) 1024 in
    let cut = from_utf8_lossy (take (n - length head) rest) in
    let fits : length head ≤ n = omega (arith, length-append head rest) in
    let lines = field_lines r.fields ++ cut in
    let laid_out : head ++ cut ≡ start ++ (13 ∷ 10 ∷ lines) =
      append_assoc start (13 ∷ 10 ∷ field_lines r.fields) cut in
    http_host_finds (head ++ rest) (start ++ (13 ∷ 10 ∷ lines)) (trim_end r.method) host
      (ap from_utf8_lossy (take-append_more n head rest fits)
        ∙ from_utf8_lossy-append head (take (n - length head) rest) (
            All-append IsAscii start (13 ∷ 10 ∷ field_lines r.fields)
              (in_line-IsAscii start start_in_line)
              (omega arith, (omega arith, field_lines-IsAscii r.fields fields)))
        ∙ laid_out)
      (ap (find_method methods) (append_assoc r.method r.target (13 ∷ 10 ∷ lines))
        ∙ m.found (r.target ++ (13 ∷ 10 ∷ lines)))
      (ap host_loop (split_crlf-line start lines start_in_line)
        ∙ host_loop_step start (split_crlf lines) (in_line-IsAscii start start_in_line)
        ∙ rw (m.no_host r.target, and_false (leb 5 (length start)))
            (host_loop-host_of r.fields cut host fields e))
