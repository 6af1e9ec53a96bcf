-- ===== src/Inspect/Http.antt =====
-- inspect.rs: `http_host`, which cuts a line at its fifth byte.
use shadowvpn_ios.Prelude.{
  ℕ, ◌<◌, ◌≡◌, ◌≢◌, refl, ap, ◌∙◌, List, [], ◌∷◌, ◌++◌, length, min, take, All, arith,
}
use shadowvpn_ios.Prelude.Outcome.{ret, panic, index, ◌>>=◌}
use shadowvpn_ios.Text.{Text, codes, trim_end}
use shadowvpn_ios.Text.Utf8.{from_utf8_lossy, from_utf8_lossy-append, from_utf8_lossy_ff}
use shadowvpn_ios.Inspect.{
  methods, starts_with, find_method, split_crlf, slice_to, host_line, host_loop, http_host,
  http_flow, describe, describe_tcp, get_from,
}

-- A byte that ends no line.
abbrev pub IsPlain : ℕ → Type 0
IsPlain c = (c < 128) × (c ≢ 13)

abbrev request_line : List ℕ
request_line = codes "GET / HTTP/1.1" ++ (13 ∷ 10 ∷ [])

lossy_head :
    (a b c d : ℕ)
    → All IsPlain (a ∷ b ∷ c ∷ d ∷ [])
    → from_utf8_lossy (request_line ++ (a ∷ b ∷ c ∷ d ∷ 0xFF ∷ []))
      ≡ request_line ++ (a ∷ b ∷ c ∷ d ∷ 0xEF ∷ 0xBF ∷ 0xBD ∷ [])
lossy_head a b c d h =
    from_utf8_lossy-append (request_line ++ (a ∷ b ∷ c ∷ d ∷ [])) (0xFF ∷ []) (omega arith)
    ∙ ap (◌++◌ (request_line ++ (a ∷ b ∷ c ∷ d ∷ []))) from_utf8_lossy_ff

split_head :
    (a b c d : ℕ)
    → All IsPlain (a ∷ b ∷ c ∷ d ∷ [])
    → split_crlf (request_line ++ (a ∷ b ∷ c ∷ d ∷ 0xEF ∷ 0xBF ∷ 0xBD ∷ []))
      ≡ codes "GET / HTTP/1.1" ∷ (a ∷ b ∷ c ∷ d ∷ 0xEF ∷ 0xBF ∷ 0xBD ∷ []) ∷ []
unfolding split_crlf
split_head a b c d h = ground arith

panics :
    (a b c d : ℕ)
    → host_loop (codes "GET / HTTP/1.1" ∷ (a ∷ b ∷ c ∷ d ∷ 0xEF ∷ 0xBF ∷ 0xBD ∷ []) ∷ []) ≡ panic
unfolding host_loop slice_to host_line
panics a b c d = refl

head_panics :
    (b head : List ℕ) (method : Text) (lines : List (List ℕ))
    → from_utf8_lossy (take (min (length b) 1024) b) ≡ head
    → find_method methods head ≡ ret method
    → split_crlf head ≡ lines
    → host_loop lines ≡ panic
    → http_host b ≡ panic
unfolding http_host
head_panics b head method lines e m s p =
    rw (e, http_host) (rw (m, ◌>>=◌) (rw (s, ◌>>=◌) (rw (p, ◌>>=◌) refl)))

is_get :
    (a b c d : ℕ)
    → find_method methods (request_line ++ (a ∷ b ∷ c ∷ d ∷ 0xEF ∷ 0xBF ∷ 0xBD ∷ []))
      ≡ ret (trim_end (codes "GET "))
unfolding find_method starts_with
is_get a b c d = refl

-- The request of a line, and one header line of four ASCII bytes and a byte that is not UTF-8.
abbrev pub bad_request : ℕ → ℕ → ℕ → ℕ → List ℕ
bad_request a b c d = request_line ++ (a ∷ b ∷ c ∷ d ∷ 0xFF ∷ [])

-- A GET request whose header line consists of any four ASCII characters that end no line and of the
-- byte 0xFF makes `http_host` panic: the byte becomes a character of three bytes, and the fifth byte
-- of the line lies inside it.
pub http_host_panics :
    (a b c d : ℕ) → All IsPlain (a ∷ b ∷ c ∷ d ∷ []) → http_host (bad_request a b c d) ≡ panic
http_host_panics a b c d h =
    head_panics (bad_request a b c d) (request_line ++ (a ∷ b ∷ c ∷ d ∷ 0xEF ∷ 0xBF ∷ 0xBD ∷ []))
      (trim_end (codes "GET ")) _ (lossy_head a b c d h) (is_get a b c d) (split_head a b c d h)
      (panics a b c d)

-- The request in a TCP segment to port 80, in an IPv4 packet.
abbrev pub bad_packet : ℕ → ℕ → ℕ → ℕ → List ℕ
bad_packet a b c d =
    0x45
    ∷ 0
    ∷ 0
    ∷ 61
    ∷ 0
    ∷ 0
    ∷ 0x40
    ∷ 0
    ∷ 64
    ∷ 6
    ∷ 0
    ∷ 0
    ∷ 10
    ∷ 0
    ∷ 0
    ∷ 2
    ∷ 192
    ∷ 0
    ∷ 2
    ∷ 1
    ∷ 0xC0
    ∷ 0
    ∷ 0
    ∷ 80
    ∷ 0
    ∷ 0
    ∷ 0
    ∷ 1
    ∷ 0
    ∷ 0
    ∷ 0
    ∷ 1
    ∷ 0x50
    ∷ 0x18
    ∷ 0xFF
    ∷ 0xFF
    ∷ 0
    ∷ 0
    ∷ 0
    ∷ 0
    ∷ bad_request a b c d

http_flow_panics :
    (a b c d : ℕ) → All IsPlain (a ∷ b ∷ c ∷ d ∷ []) → http_flow (bad_request a b c d) ≡ panic
unfolding http_flow
http_flow_panics a b c d h = rw (http_host_panics a b c d h, ◌>>=◌) refl

-- A packet to port 80 with such a request makes `describe` panic, and with it the ingress task.
pub describe_panics :
    (a b c d : ℕ) → All IsPlain (a ∷ b ∷ c ∷ d ∷ []) → describe (bad_packet a b c d) ≡ panic
unfolding describe describe_tcp get_from index
describe_panics a b c d h = http_flow_panics a b c d h
