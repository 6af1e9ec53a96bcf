-- ===== src/Config/Validation.antt =====
-- config.rs, `from_json`: the configurations that it accepts.
use shadowvpn_ios.Prelude.{
  ◌≡◌, refl, sym, subst, ◌∙◌, true, false, Option, length, arith, ◌⊎◌, inl, inr, Bool-cases,
}
use shadowvpn_ios.Prelude.Result.{Result, ok, err, ◌>>=◌, map_err}
use shadowvpn_ios.Text.{Text, as_bytes}
use shadowvpn_ios.Crypto.{Primitives, PrimitiveLaws, Cipher, from_name, key_len, evp_bytes_to_key}
use shadowvpn_ios.Crypto.Key.{length-evp_bytes_to_key}
use shadowvpn_ios.Config.{
  RawConfig, RuntimeConfig, is_blank, or_empty, mtu_or_default, is_chinadns, check_chinadns, build,
  validate, from_json,
}

-- The three fields that chinadns mode needs.
abbrev pub HasDns : Option Text → Option Text → Option Text → Type 0
HasDns local remote path =
    (is_blank (or_empty local) ≡ false)
    × (is_blank (or_empty remote) ≡ false)
    × (is_blank (or_empty path) ≡ false)

-- What the engine relies on.
pub record IsReady (p : Primitives) (raw : RawConfig) (cfg : RuntimeConfig) : Type 0 where
  pub server_kept : cfg.server ≡ raw.server
  pub server_set : is_blank cfg.server ≡ false
  pub cipher_known : from_name raw.cipher ≡ ok cfg.cipher
  pub key_derived : cfg.master_key ≡ evp_bytes_to_key p (as_bytes raw.password) (key_len cfg.cipher)
  pub mode_kept : cfg.mode ≡ raw.mode
  pub mtu_set : cfg.mtu ≡ mtu_or_default raw.mtu
  pub obfs_kept : cfg.obfs ≡ raw.obfs
  pub dns_set : is_chinadns cfg.mode ≡ true → HasDns cfg.dns_local cfg.dns_remote cfg.chnroute_path

build-IsReady :
    (p : Primitives) (raw : RawConfig) (c : Cipher)
    → is_blank raw.server ≡ false
    → from_name raw.cipher ≡ ok c
    → check_chinadns raw ≡ ok tt
    → IsReady p raw (build p raw c)
unfolding build check_chinadns
build-IsReady p raw c s n d = record {
  server_kept = refl;
  server_set = s;
  cipher_known = n;
  key_derived = refl;
  mode_kept = refl;
  mtu_set = refl;
  obfs_kept = refl;
  dns_set = λ m. (ground arith, ground arith, ground arith);
}

check_chinadns_lem :
    (raw : RawConfig)
    → ((is_chinadns raw.mode ≡ false) ⊎ HasDns raw.dns_local raw.dns_remote raw.chnroute_path)
    → check_chinadns raw ≡ ok tt
unfolding check_chinadns
check_chinadns_lem raw d = ground arith

validate_accepts :
    (p : Primitives) (raw : RawConfig) (c : Cipher)
    → is_blank raw.server ≡ false
    → from_name raw.cipher ≡ ok c
    → check_chinadns raw ≡ ok tt
    → validate p raw ≡ ok (build p raw c)
unfolding validate
validate_accepts p raw c s n d = ground arith

module _ (p : Primitives) (from_str : Text → Result Text RawConfig) (json : Text) where
  from_json_ok :
      (raw : RawConfig) → from_str json ≡ ok raw → validate p raw ≡ from_json p from_str json
  unfolding from_json
  from_json_ok raw e = rw (e, ◌>>=◌, map_err)

  from_json_err :
      (cfg : RuntimeConfig) (x : Text)
      → from_str json ≡ err x
      → from_json p from_str json ≡ ok cfg
      → ⊥
  unfolding from_json
  from_json_err cfg x e h = ground arith

pub Result-cases {ℓ κ} :
    {E : Type ℓ} {A : Type κ} (r : Result E A) → ((a : A) × (r ≡ ok a)) ⊎ ((e : E) × (r ≡ err e))
Result-cases (ok a) = inl (a, refl)
Result-cases (err e) = inr (e, refl)

validate_inv :
    (p : Primitives) (raw : RawConfig) (cfg : RuntimeConfig)
    → validate p raw ≡ ok cfg
    → (c : Cipher) × (is_blank raw.server ≡ false)
      × (from_name raw.cipher ≡ ok c)
      × (check_chinadns raw ≡ ok tt)
      × (build p raw c ≡ cfg)
unfolding validate
validate_inv p raw cfg h = elim (Result-cases (from_name raw.cipher)) [
  | inl (c, e) ↦ elim (Result-cases (check_chinadns raw)) [
    | inl (_, d) ↦ (c, ground arith, e, d, ground arith)
    | inr (_, d) ↦ absurd (ground arith)
  ]
  | inr (_, e) ↦ absurd (ground arith)
]

-- The JSON parser is any function. When `from_json` accepts, the parser returned a raw configuration
-- from which the result takes over the server, the mode and the obfuscation; the server is not
-- blank, the cipher is the one named, the master key is derived from the password, an absent MTU is
-- the default, and in chinadns mode the two resolvers and the route file are given.
pub from_json-IsReady :
    (p : Primitives) (from_str : Text → Result Text RawConfig) (json : Text) (cfg : RuntimeConfig)
    → from_json p from_str json ≡ ok cfg
    → (raw : RawConfig) × (from_str json ≡ ok raw) × IsReady p raw cfg
from_json-IsReady p from_str json cfg h = elim (Result-cases (from_str json)) [
  | inl (raw, e) ↦
      let (c, s, n, d, b) = validate_inv p raw cfg (from_json_ok p from_str json raw e ∙ h) in
      (raw, e, subst (IsReady p raw) b (build-IsReady p raw c s n d))
  | inr (x, e) ↦ absurd (from_json_err p from_str json cfg x e h)
]

-- `from_json` accepts whatever the parser accepts with a server that is not blank, a known cipher and,
-- in chinadns mode, the three fields.
pub from_json_accepts :
    (p : Primitives) (from_str : Text → Result Text RawConfig) (json : Text) (raw : RawConfig)
    (c : Cipher)
    → from_str json ≡ ok raw
    → is_blank raw.server ≡ false
    → from_name raw.cipher ≡ ok c
    → ((is_chinadns raw.mode ≡ false) ⊎ HasDns raw.dns_local raw.dns_remote raw.chnroute_path)
    → (cfg : RuntimeConfig) × (from_json p from_str json ≡ ok cfg) × IsReady p raw cfg
from_json_accepts p from_str json raw c e s n d =
    let ready = check_chinadns_lem raw d in
    (
      build p raw c,
      sym (from_json_ok p from_str json raw e) ∙ validate_accepts p raw c s n ready,
      build-IsReady p raw c s n ready,
    )

-- What the user has to give: JSON that parses, a server that is not blank, a known cipher and, in chinadns
-- mode, the three fields.
abbrev pub Acceptable : (Text → Result Text RawConfig) → Text → Type 0
Acceptable from_str json =
    (raw : RawConfig) × (c : Cipher) × (from_str json ≡ ok raw)
    × (is_blank raw.server ≡ false)
    × (from_name raw.cipher ≡ ok c)
    × ((is_chinadns raw.mode ≡ false) ⊎ HasDns raw.dns_local raw.dns_remote raw.chnroute_path)

check_chinadns_inv :
    (raw : RawConfig)
    → check_chinadns raw ≡ ok tt
    → (is_chinadns raw.mode ≡ false) ⊎ HasDns raw.dns_local raw.dns_remote raw.chnroute_path
unfolding check_chinadns
check_chinadns_inv raw h = elim (Bool-cases (is_chinadns raw.mode)) [
  | inl m ↦ inr (ground arith, ground arith, ground arith)
  | inr m ↦ inl m
]

pub from_json-Acceptable :
    (p : Primitives) (from_str : Text → Result Text RawConfig) (json : Text) (cfg : RuntimeConfig)
    → from_json p from_str json ≡ ok cfg
    → Acceptable from_str json
from_json-Acceptable p from_str json cfg h = elim (Result-cases (from_str json)) [
  | inl (raw, e) ↦
      let (c, s, n, d, _) = validate_inv p raw cfg (from_json_ok p from_str json raw e ∙ h) in
      (raw, c, e, s, n, check_chinadns_inv raw d)
  | inr (x, e) ↦ absurd (from_json_err p from_str json cfg x e h)
]

-- Over digests of 16 bytes, the master key of an accepted configuration has the length that its cipher
-- needs.
pub length-master_key :
    (p : Primitives)
    → PrimitiveLaws p
    → (from_str : Text → Result Text RawConfig) (json : Text) (cfg : RuntimeConfig)
    → from_json p from_str json ≡ ok cfg
    → length cfg.master_key ≡ key_len cfg.cipher
length-master_key p laws from_str json cfg h =
    let (raw, _, r) = from_json-IsReady p from_str json cfg h in
    rw r.key_derived (length-evp_bytes_to_key p laws (as_bytes raw.password) (key_len cfg.cipher))
