-- ===== src/Obfs/Base64.antt =====
-- obfs.rs: the base64 framing.
use shadowvpn_ios.Prelude.{
  ℕ, ◌+◌, ◌-◌, ◌*◌, ◌/◌, ◌%◌, ◌^◌, ◌≤◌, ◌<◌, ◌≡◌, ◌≢◌, refl, ap, ◌∙◌, ◌&&◌, Option, none, some,
  List, [], ◌∷◌, ◌++◌, length, arith, agree_below, agree_below→eq, IsByte, All, ◌==◌, leb,
  if◌then◌else◌,
}
use shadowvpn_ios.Obfs.{b64, b64_rev, pad, base64_encode, push, decode_loop, base64_decode}

-- The reverse table undoes the alphabet, which lacks the padding character.
b64_rev-b64 : (i : ℕ) → i < 64 → b64_rev (b64 i) ≡ i
unfolding agree_below b64_rev
b64_rev-b64 = agree_below→eq _ _ 64 refl

-- 1 at the padding character, 0 elsewhere.
abbrev pad_mark : ℕ → ℕ
pad_mark c = if c == pad then 1 else 0

b64-ne-pad : (i : ℕ) → i < 64 → pad_mark (b64 i) ≡ 0
unfolding agree_below b64
b64-ne-pad = agree_below→eq (λ i. pad_mark (b64 i)) (λ _. 0) 64 refl

-- 1 at a printable ASCII character other than the space.
abbrev graphic_mark : ℕ → ℕ
graphic_mark c = if leb 33 c && leb c 126 then 1 else 0

b64_graphic : (i : ℕ) → i < 64 → graphic_mark (b64 i) ≡ 1
unfolding agree_below b64
b64_graphic = agree_below→eq (λ i. graphic_mark (b64 i)) (λ _. 1) 64 refl

b64_bounds : (i : ℕ) → i < 64 → (33 ≤ b64 i) × (b64 i ≤ 126)
b64_bounds i h = ground (arith, b64_graphic i h)

-- One round of the decoder on a character of the alphabet.
decode_round :
    (i : ℕ) (cs : List ℕ) (buf bits : ℕ)
    → i < 64
    → decode_loop (b64 i ∷ cs) buf bits ≡ (
        let buf' = buf * 64 % 2 ^ 32 + i in
        if leb 8 (bits + 6)
        then push (buf' / 2 ^ (bits - 2) % 256) (decode_loop cs buf' (bits - 2))
        else decode_loop cs buf' (bits + 6))
unfolding decode_loop
decode_round i cs buf bits h = ground (arith, b64_rev-b64 i h, b64-ne-pad i h)

decode_pad : (cs : List ℕ) (buf bits : ℕ) → decode_loop (pad ∷ cs) buf bits ≡ some []
unfolding decode_loop
decode_pad cs buf bits = refl

-- The first two rounds leave one byte and four bits.
decode_two :
    (i j : ℕ) (cs : List ℕ) (buf : ℕ)
    → i < 64
    → j < 64
    → (buf' : ℕ) × (buf' % 2 ^ 12 ≡ i * 64 + j)
      × (decode_loop (b64 i ∷ b64 j ∷ cs) buf 0 ≡ push (i * 4 + j / 16) (decode_loop cs buf' 4))
decode_two i j cs buf hi hj =
    let one = buf * 64 % 2 ^ 32 + i in
    let two = one * 64 % 2 ^ 32 + j in
    let e : two / 2 ^ 4 % 256 ≡ i * 4 + j / 16 = omega arith in
    (
      two,
      omega arith,
      decode_round i (b64 j ∷ cs) buf 0 hi
          ∙ decode_round j cs one 6 hj
          ∙ ap (λ (b : ℕ). push b (decode_loop cs two 4)) e,
    )

-- The third round yields the second byte, and leaves two bits.
decode_third :
    (i j k : ℕ) (cs : List ℕ) (buf : ℕ)
    → i < 64
    → j < 64
    → k < 64
    → (buf' : ℕ) × (buf' % 2 ^ 12 ≡ j * 64 + k)
      × (decode_loop (b64 i ∷ b64 j ∷ b64 k ∷ cs) buf 0
          ≡ push (i * 4 + j / 16) (push (j % 16 * 16 + k / 4) (decode_loop cs buf' 2)))
decode_third i j k cs buf hi hj hk =
    let (two, m, e) = decode_two i j (b64 k ∷ cs) buf hi hj in
    let three = two * 64 % 2 ^ 32 + k in
    let e' : three / 2 ^ 2 % 256 ≡ j % 16 * 16 + k / 4 = omega arith in
    (
      three,
      omega arith,
      e
          ∙ ap (push (i * 4 + j / 16))
              (decode_round k cs two 4 hk ∙ ap (λ (b : ℕ). push b (decode_loop cs three 2)) e'),
    )

-- Four characters yield three bytes, and leave no bit.
decode_fourth :
    (i j k l : ℕ) (cs : List ℕ) (buf : ℕ)
    → i < 64
    → j < 64
    → k < 64
    → l < 64
    → (buf' : ℕ) × (decode_loop (b64 i ∷ b64 j ∷ b64 k ∷ b64 l ∷ cs) buf 0
        ≡ push
            (i * 4 + j / 16)
            (push (j % 16 * 16 + k / 4) (push (k % 4 * 64 + l) (decode_loop cs buf' 0))))
decode_fourth i j k l cs buf hi hj hk hl =
    let (three, m, e) = decode_third i j k (b64 l ∷ cs) buf hi hj hk in
    let four = three * 64 % 2 ^ 32 + l in
    let e' : four / 1 % 256 ≡ k % 4 * 64 + l = omega arith in
    (
      four,
      e
          ∙ ap (λ (r : Option (List ℕ)). push (i * 4 + j / 16) (push (j % 16 * 16 + k / 4) r))
              (decode_round l cs three 2 hl ∙ ap (λ (b : ℕ). push b (decode_loop cs four 0)) e'),
    )

one_byte : {a a' : ℕ} → a ≡ a' → some (a ∷ []) ≡ some (a' ∷ [])
one_byte p = cc

two_bytes : {a b a' b' : ℕ} → a ≡ a' → b ≡ b' → some (a ∷ b ∷ []) ≡ some (a' ∷ b' ∷ [])
two_bytes p q = cc

three_bytes :
    {a b c a' b' c' : ℕ} {rest : List ℕ}
    → a ≡ a'
    → b ≡ b'
    → c ≡ c'
    → some (a ∷ b ∷ c ∷ rest) ≡ some (a' ∷ b' ∷ c' ∷ rest)
three_bytes p q r = cc

decode_loop-encode :
    (data' : List ℕ) (buf : ℕ)
    → All IsByte data'
    → decode_loop (base64_encode data') buf 0 ≡ some data'
unfolding base64_encode
decode_loop-encode [] buf h = unfold decode_loop in refl
decode_loop-encode (a ∷ []) buf (ha, h) =
    let i = a * 2 ^ 16 / 2 ^ 18 % 64 in
    let j = a * 2 ^ 16 / 2 ^ 12 % 64 in
    let (buf', m, e) = decode_two i j (pad ∷ pad ∷ []) buf (omega arith) (omega arith) in
    e
    ∙ ap (push (i * 4 + j / 16)) (decode_pad (pad ∷ []) buf' 4)
    ∙ one_byte {a = i * 4 + j / 16} (omega arith)
decode_loop-encode (a ∷ b ∷ []) buf (ha, (hb, h)) =
    let n = a * 2 ^ 16 + b * 2 ^ 8 in
    let i = n / 2 ^ 18 % 64 in
    let j = n / 2 ^ 12 % 64 in
    let k = n / 2 ^ 6 % 64 in
    let (buf', m, e) =
      decode_third i j k (pad ∷ []) buf (omega arith) (omega arith) (omega arith) in
    e
    ∙ ap (λ (r : Option (List ℕ)). push (i * 4 + j / 16) (push (j % 16 * 16 + k / 4) r))
        (decode_pad [] buf' 2)
    ∙ two_bytes {a = i * 4 + j / 16} {b = j % 16 * 16 + k / 4} (omega arith) (omega arith)
decode_loop-encode (a ∷ b ∷ c ∷ rest) buf (ha, (hb, (hc, h))) =
    let n = a * 2 ^ 16 + b * 2 ^ 8 + c in
    let i = n / 2 ^ 18 % 64 in
    let j = n / 2 ^ 12 % 64 in
    let k = n / 2 ^ 6 % 64 in
    let l = n % 64 in
    let (buf', e) =
      decode_fourth i j k l (base64_encode rest) buf (omega arith) (omega arith) (omega arith)
        (omega arith) in
    e
    ∙ ap
        (λ (r : Option (List ℕ)).
          push (i * 4 + j / 16) (push (j % 16 * 16 + k / 4) (push (k % 4 * 64 + l) r)))
        (decode_loop-encode rest buf' h)
    ∙ three_bytes {a = i * 4 + j / 16} {b = j % 16 * 16 + k / 4} {c = k % 4 * 64 + l} (omega arith)
        (omega arith) (omega arith)

-- Decoding what was encoded returns the bytes, whatever they are.
pub base64_decode-encode :
    (input : List ℕ) → All IsByte input → base64_decode (base64_encode input) ≡ some input
unfolding base64_decode
base64_decode-encode input h = decode_loop-encode input 0 h

-- The encoding is printable ASCII, and its length is four for every three bytes begun.
pub base64_encode_printable :
    (input : List ℕ)
    → All IsByte input
    → All (λ c. (33 ≤ c) × (c ≤ 126)) (base64_encode input)
      × (length (base64_encode input) ≡ (length input + 2) / 3 * 4)
unfolding base64_encode
base64_encode_printable [] h = (tt, omega arith)
base64_encode_printable (a ∷ []) (ha, h) =
    let n = a * 2 ^ 16 in ground (arith, b64_bounds (n / 2 ^ 18 % 64), b64_bounds (n / 2 ^ 12 % 64))
base64_encode_printable (a ∷ b ∷ []) (ha, (hb, h)) =
    let n = a * 2 ^ 16 + b * 2 ^ 8 in
    ground (
      arith,
      b64_bounds (n / 2 ^ 18 % 64),
      b64_bounds (n / 2 ^ 12 % 64),
      b64_bounds (n / 2 ^ 6 % 64),
    )
base64_encode_printable (a ∷ b ∷ c ∷ rest) (ha, (hb, (hc, h))) =
    let n = a * 2 ^ 16 + b * 2 ^ 8 + c in
    ground (
      arith,
      b64_bounds (n / 2 ^ 18 % 64),
      b64_bounds (n / 2 ^ 12 % 64),
      b64_bounds (n / 2 ^ 6 % 64),
      b64_bounds (n % 64),
      base64_encode_printable rest h,
    )

decode_loop_rejects :
    (front back : List ℕ) (c buf bits : ℕ)
    → All (λ x. x ≢ pad) front
    → c ≢ pad
    → b64_rev c ≡ 0xFF
    → decode_loop (front ++ (c ∷ back)) buf bits ≡ none
unfolding decode_loop
decode_loop_rejects [] back c buf bits h p r = ground arith
decode_loop_rejects (x ∷ xs) back c buf bits (hx, h) p r =
    let buf' = buf * 64 % 2 ^ 32 + b64_rev x in
    ground (
      arith,
      decode_loop_rejects xs back c buf' (bits - 2) h p r,
      decode_loop_rejects xs back c buf' (bits + 6) h p r,
    )

-- A packet with a byte outside the alphabet before any padding is rejected, not mis-decoded.
base64_decode_rejects :
    (front back : List ℕ) (c : ℕ)
    → All (λ x. x ≢ pad) front
    → c ≢ pad
    → b64_rev c ≡ 0xFF
    → base64_decode (front ++ (c ∷ back)) ≡ none
unfolding base64_decode
base64_decode_rejects front back c h p r = decode_loop_rejects front back c 0 0 h p r
