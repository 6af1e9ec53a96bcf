-- ===== src/Inspect/Hello/Sni.antt =====
-- inspect.rs: `tls_sni` on a ClientHello that keeps to the format.
use shadowvpn_ios.Prelude.{
  ℕ, ◌+◌, ◌≤◌, ◌<◌, ◌≡◌, refl, sym, ap, ◌∙◌, List, [], ◌∷◌, ◌++◌, length, append_assoc,
  length-append, append-nil, ◌/◌, ◌%◌, All, be16, to_be16, arith, length-drop, min,
}
use shadowvpn_ios.Prelude.Cursor.{At, At-append, index-At}
use shadowvpn_ios.Prelude.Outcome.{Outcome, ret, get}
use shadowvpn_ios.Text.{Text, as_bytes}
use shadowvpn_ios.Text.Utf8.Decoded.{IsScalar}
use shadowvpn_ios.Inspect.{get_from, sni_loop, tls_sni}
use shadowvpn_ios.Inspect.Hello.{
  test_hello, test_record, host_name, host_entry, extension_type, extension_body, entries, Hello,
  extension_part, compression_part, suites_part, session_part, hello_body, handshake, client_hello,
  IsExtension, IsHello, server_of,
}
use shadowvpn_ios.Inspect.Hello.Extensions.{length-entries, sni_loop-server_of}

-- Where the parts of the body stand in the handshake message.
record IsLaidOut (h : Hello) (rec rest : List ℕ) : Type 0 where
  session_id_at : At rec 38 (session_part h ++ rest)
  suites_at : At rec (39 + length h.session_id) (suites_part h ++ rest)
  compression_at :
      At rec (39 + length h.session_id + 2 + length h.cipher_suites) (compression_part h ++ rest)
  extensions_at :
      At rec
        (39 + length h.session_id + 2 + length h.cipher_suites + 1 + length h.compression)
        (extension_part h ++ rest)

laid_out :
    (h : Hello) (rec rest : List ℕ)
    → IsHello h
    → At rec 4 (hello_body h ++ rest)
    → IsLaidOut h rec rest
unfolding hello_body session_part suites_part compression_part
laid_out h rec rest v start =
    let sid = h.session_id in
    let cs = h.cipher_suites in
    let cm = h.compression in
    let random_at =
      At-append rec 4 6 h.version ((h.random ++ session_part h) ++ rest)
        (start ∙ append_assoc h.version (h.random ++ session_part h) rest) (omega arith) in
    let session =
      At-append rec 6 38 h.random (session_part h ++ rest)
        (random_at ∙ append_assoc h.random (session_part h) rest) (omega arith) in
    let suites =
      At-append rec 38 (39 + length sid) ((length sid % 256) ∷ sid) (suites_part h ++ rest)
        (session ∙ append_assoc ((length sid % 256) ∷ sid) (suites_part h) rest) (omega arith) in
    let compression =
      At-append rec (39 + length sid) (39 + length sid + 2 + length cs) (to_be16 (length cs) ++ cs)
        (compression_part h ++ rest)
        (suites ∙ append_assoc (to_be16 (length cs) ++ cs) (compression_part h) rest)
        (omega arith) in
    record {
      session_id_at = session;
      suites_at = suites;
      compression_at = compression;
      extensions_at =
          At-append rec (39 + length sid + 2 + length cs)
            (39 + length sid + 2 + length cs + 1 + length cm) ((length cm % 256) ∷ cm)
            (extension_part h ++ rest)
            (compression ∙ append_assoc ((length cm % 256) ∷ cm) (extension_part h) rest)
            (omega arith);
    }

-- The bytes that `tls_sni` reads before its loop.
tls_sni_reads :
    (b rec : List ℕ) (s c0 c1 m e0 e1 q r : ℕ)
    → get b 0 ≡ ret 0x16
    → get_from b 5 ≡ ret rec
    → get rec 0 ≡ ret 0x01
    → get rec 38 ≡ ret s
    → get rec (39 + s) ≡ ret c0
    → get rec (39 + s + 1) ≡ ret c1
    → q ≡ 39 + s + 2 + be16 c0 c1
    → get rec q ≡ ret m
    → r ≡ q + 1 + m
    → get rec r ≡ ret e0
    → get rec (r + 1) ≡ ret e1
    → tls_sni b ≡ sni_loop (length rec) rec (r + 2) (min (r + 2 + be16 e0 e1) (length rec))
unfolding tls_sni
tls_sni_reads b rec s c0 c1 m e0 e1 q r b0 b5 r0 r38 rc0 rc1 hq rm hr re0 re1 =
    rw (b0, b5, r0, r38, rc0, rc1, ← hq, rm, ← hr, re0, re1) refl

small_byte : (n : ℕ) → n < 256 → ◌≡◌ {A = Outcome ℕ} (ret (n % 256)) (ret n)
small_byte n h = let e : n % 256 ≡ n = omega arith in ap ret e

get_from_five : (a b c d e : ℕ) (rec : List ℕ) → get_from (a ∷ b ∷ c ∷ d ∷ e ∷ rec) 5 ≡ ret rec
unfolding get_from
get_from_five a b c d e rec = ground arith

-- What `tls_sni` reads of a ClientHello, with anything behind it: the host of its first server_name
-- extension, and nothing where it has none.
pub tls_sni-client_hello :
    (h : Hello) (rest : List ℕ)
    → IsHello h
    → tls_sni (client_hello h ++ rest) ≡ server_of h.extensions
unfolding client_hello handshake suites_part compression_part session_part extension_part get
tls_sni-client_hello h rest v =
    let rec = handshake h ++ rest in
    let at = laid_out h rec rest v refl in
    let s = length h.session_id in
    let c = length h.cipher_suites in
    let q = 39 + s + 2 + c in
    let r = q + 1 + length h.compression in
    let exts = entries h.extensions in
    let byte = λ (p b : ℕ) (l : List ℕ) (e : At rec p (b ∷ l)). (index-At rec p b l e).1 in
    let next = λ (p a b : ℕ) (l : List ℕ) (e : At rec p (a ∷ b ∷ l)).
      (index-At rec (p + 1) b l (At-append rec p (p + 1) (a ∷ []) (b ∷ l) e refl)).1 in
    let after =
      At-append rec r (r + 2) (to_be16 (length exts)) (exts ++ rest)
        (at.extensions_at ∙ append_assoc (to_be16 (length exts)) exts rest) refl in
    let fits : r + 2 + length exts ≤ length rec =
      omega (arith, ap length at.extensions_at, length-drop r rec, length-append exts rest) in
    let end : min (r + 2 + be16 (length exts / 256 % 256) (length exts % 256)) (length rec)
        ≡ r + 2 + length exts =
      omega (arith, v.extensions_len) in
    let short : length exts ≤ length rec = omega arith in
    tls_sni_reads _ rec s (c / 256 % 256) (c % 256) (length h.compression) (length exts / 256 % 256)
      (length exts % 256) q r refl (get_from_five _ _ _ _ _ rec) refl
      (byte 38 _ _ at.session_id_at ∙ small_byte s v.session_id_len)
      (byte (39 + s) _ _ at.suites_at) (next (39 + s) _ _ _ at.suites_at)
      (omega (arith, v.cipher_suites_len))
      (byte q _ _ at.compression_at ∙ small_byte (length h.compression) v.compression_len) refl
      (byte r _ _ at.extensions_at) (next r _ _ _ at.extensions_at)
    ∙ ap (sni_loop (length rec) rec (r + 2)) end
    ∙ sni_loop-server_of h.extensions (length rec) rec (r + 2) (r + 2 + length exts) rest after refl
        fits v.extensions_len short v.each

-- In the record that the unit test writes, for a host that fits its fields, the host is found.
tls_sni-test_record :
    (host : Text)
    → All IsScalar host
    → length (as_bytes host) ≤ 65526
    → tls_sni (test_record host) ≡ ret (as_bytes host)
unfolding test_record entries host_entry extension_type extension_body IsExtension server_of
tls_sni-test_record host scalars short =
    let h = test_hello host in
    let len : length (entries h.extensions) ≡ 9 + length (as_bytes host) =
      length-entries (host_name host) [] ∙ omega arith in
    ap tls_sni (sym (append-nil (client_hello h)))
    ∙ tls_sni-client_hello h [] (record {
      version_len = refl;
      random_len = refl;
      session_id_len = omega arith;
      cipher_suites_len = omega arith;
      compression_len = omega arith;
      extensions_len = omega (arith, len);
      each = (scalars, tt);
    })
