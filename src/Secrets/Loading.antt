-- ===== src/Secrets/Loading.antt =====
-- secrets.rs, main.rs: with which configuration and which key `main` goes on.
use chain_adjacent_service.Prelude.{
  Option-cases, seq_iff, ◌∙◌, ok, ◌>>=◌, ok_or, bind_ok, ok_or_ok, ok-injective, not_both, ℕ, Bool,
  Option, none, some, ◌≡◌, ◌↔◌, ◌⊎◌, inl, inr, refl, ap, subst, arith,
}
use chain_adjacent_service.Prelude.Words.{Bytes}
use chain_adjacent_service.Config.{TeeType, nitro, test}
use chain_adjacent_service.Secrets.{
  SecretOverrides, ServiceConfig, Cloud, Environment, secret_key, key_or,
  resolve_operator_private_key, parse_secret_overrides, fetch_with, fetch_secret_overrides,
  overridden, apply_overrides_nitro, assert_no_placeholders_nitro, apply_if, load, bad_secret_json,
  bad_parameters_json, fetch_failed, no_secret_string, bad_base_url, bad_operator_private_key,
}
use chain_adjacent_service.Secrets.Checks.{NoPlaceholders, assert_no_placeholders_nitro_iff}

-- The operator's key is that of the secret, or that of the environment where the secret has none.
abbrev pub KeyFrom : Option Bytes → Option Bytes → Bytes → Type 0
KeyFrom from_secret var key = (from_secret ≡ some key) ⊎ ((from_secret ≡ none) × (var ≡ some key))

key_iff :
    (overrides : Option SecretOverrides) (var : Option Bytes) (key : Bytes)
    → (resolve_operator_private_key overrides var ≡ ok key) ↔ KeyFrom (secret_key overrides) var key
unfolding resolve_operator_private_key
key_iff overrides var key = key_or_iff (secret_key overrides) var
  where
    key_or_iff : (s v : Option Bytes) → (key_or s v ≡ ok key) ↔ KeyFrom s v key
    key_or_iff none none = ground arith
    key_or_iff none (some k) = ground arith
    key_or_iff (some k) v = ground arith

module _ (K : Cloud) where
  -- The secret is the overrides, or its field `parameters` is.
  abbrev pub Holds : Bytes → SecretOverrides → Type 0
  Holds secret o =
      (K.overrides_from_str secret ≡ some o)
      ⊎ ((K.overrides_from_str secret ≡ none)
          × ((parameters : Bytes) × (K.wrapper_from_str secret ≡ some parameters)
              × (K.overrides_from_str parameters ≡ some o)))

  -- The secret is fetched where both variables name it; where neither is set there is none, which is
  -- not allowed in an enclave.
  abbrev pub Fetched : TeeType → Option Bytes → Option Bytes → Option SecretOverrides → Type 0
  Fetched tee_type region secret_id none = (region ≡ none) × (secret_id ≡ none) × (tee_type ≡ test)
  Fetched tee_type region secret_id (some o) =
      (r : Bytes) × (i : Bytes) × (secret : Bytes) × (region ≡ some r)
      × (secret_id ≡ some i)
      × (K.get_secret_value r i ≡ some (some secret))
      × Holds secret o

  -- The overrides go over the configuration, if there are any.
  abbrev pub Applied : ServiceConfig → Option SecretOverrides → ServiceConfig → Type 0
  Applied cfg none started = cfg ≡ started
  Applied cfg (some o) started =
      (url : Bytes) × (K.parse_url o.espresso_base_url ≡ some url)
      × (overridden K cfg o url ≡ started)

  parse_iff :
      (secret : Bytes) (o : SecretOverrides)
      → (parse_secret_overrides K secret ≡ ok o) ↔ Holds secret o
  unfolding parse_secret_overrides
  parse_iff secret o = (
    λ h. elim (Option-cases (K.overrides_from_str secret)) [
      | inl e ↦
          let (parameters, w, k) =
            bind_ok (ok_or (K.wrapper_from_str secret) bad_secret_json)
              (rw (parse_secret_overrides, e) at h) in
          inr (
            e,
            (
              parameters,
              ok_or_ok (K.wrapper_from_str secret) bad_secret_json w,
              ok_or_ok (K.overrides_from_str parameters) bad_parameters_json k,
            ),
          )
      | inr (found, e) ↦ inl (e ∙ ap some (ok-injective (rw (parse_secret_overrides, e) at h)))
    ],
    λ h. elim h [
      | inl e ↦ rw (parse_secret_overrides, e) refl
      | inr (e, (parameters, w, k)) ↦ rw (parse_secret_overrides, e, w, k) refl
    ],
  )

  Fetched-iff :
      (tee_type : TeeType) (region secret_id : Option Bytes) (o : Option SecretOverrides)
      → (fetch_with K tee_type region secret_id ≡ ok o) ↔ Fetched tee_type region secret_id o
  Fetched-iff nitro none none none = (λ h. not_both h, λ h. absurd (ground arith))
  Fetched-iff test none none none = (λ h. (refl, refl, refl), λ h. refl)
  Fetched-iff nitro none none (some o) = (λ h. not_both h, λ h. absurd (ground arith))
  Fetched-iff test none none (some o) = (λ h. absurd (ground arith), λ h. absurd (ground arith))
  Fetched-iff tee_type (some r) none none = (λ h. not_both h, λ h. absurd (ground arith))
  Fetched-iff tee_type (some r) none (some o) = (λ h. not_both h, λ h. absurd (ground arith))
  Fetched-iff tee_type none (some i) none = (λ h. not_both h, λ h. absurd (ground arith))
  Fetched-iff tee_type none (some i) (some o) = (λ h. not_both h, λ h. absurd (ground arith))
  Fetched-iff tee_type (some r) (some i) none = (λ h. absurd (never h), λ h. absurd (ground arith))
    where
      never :
          (ok_or (K.get_secret_value r i) fetch_failed >>= λ resp.
          ok_or resp no_secret_string >>= λ secret_str.
          parse_secret_overrides K secret_str >>= λ overrides. ok (some overrides))
            ≡ ok none
          → ⊥
      never h =
          let (resp, e, k) = bind_ok (ok_or (K.get_secret_value r i) fetch_failed) h in
          let (secret, f, l) = bind_ok (ok_or resp no_secret_string) k in
          let (overrides, g, m) = bind_ok (parse_secret_overrides K secret) l in ground arith
  Fetched-iff tee_type (some r) (some i) (some o) = (
    λ h.
        let (resp, e, k) = bind_ok (ok_or (K.get_secret_value r i) fetch_failed) h in
        let (secret, f, l) = bind_ok (ok_or resp no_secret_string) k in
        let (overrides, g, m) = bind_ok (parse_secret_overrides K secret) l in
        (
          r,
          i,
          secret,
          refl,
          refl,
          ok_or_ok (K.get_secret_value r i) fetch_failed e
              ∙ ap some (ok_or_ok resp no_secret_string f),
          (parse_iff secret o).0 (g ∙ ap ok (some-injective (ok-injective m))),
        ),
    λ (r', i', secret, e, f, found, holds).
        let named = ap2_secret (some-injective e) (some-injective f) ∙ found in
        rw (named, (parse_iff secret o).1 holds) refl,
  )
    where
      some-injective : {A : Type 0} {a b : A} → Path (Option A) (some a) (some b) → a ≡ b
      some-injective h = cc

      ap2_secret :
          {r' i' : Bytes} → r ≡ r' → i ≡ i' → K.get_secret_value r i ≡ K.get_secret_value r' i'
      ap2_secret e f = rw (e, f) refl

  Applied-iff :
      (cfg : ServiceConfig) (o : Option SecretOverrides) (started : ServiceConfig)
      → (apply_if K cfg o ≡ ok started) ↔ Applied cfg o started
  unfolding apply_overrides_nitro
  Applied-iff cfg none started = (ok-injective, ap ok)
  Applied-iff cfg (some o) started = (
    λ h.
        let (url, e, k) = bind_ok (ok_or (K.parse_url o.espresso_base_url) bad_base_url) h in
        (url, ok_or_ok (K.parse_url o.espresso_base_url) bad_base_url e, ok-injective k),
    λ (url, e, k). rw e (ap ok k),
  )

  -- The start of `main` gets to a configuration and the operator's key exactly if the secret is fetched
  -- as the two variables say, which are both set, or both unset outside an enclave, the configuration is
  -- the one of the file with the overrides of the secret, it passes the checks of the build (nothing is a
  -- placeholder, the URL of the parent chain is valid, and an enclave has a genesis unless the build
  -- reads unverified blocks), and the key is parsed from that of the secret or else of the environment.
  pub load_iff :
      (unverified_reader : Bool) (env : Environment) (cfg started : ServiceConfig) (key : ℕ)
      → (load K unverified_reader env cfg ≡ ok (started, key)) ↔ (
          (overrides : Option SecretOverrides) × (text : Bytes) × Fetched cfg.tee_type
            env.aws_region env.aws_secret_id overrides
          × Applied cfg overrides started
          × NoPlaceholders K unverified_reader started
          × KeyFrom (secret_key overrides) env.operator_private_key_var text
          × (K.parse_private_key text ≡ some key))
  unfolding load fetch_secret_overrides
  load_iff unverified_reader env cfg started key = (
    λ h.
        let (overrides, e0, h0) =
          bind_ok (fetch_with K cfg.tee_type env.aws_region env.aws_secret_id) h in
        let (applied, e1, h1) = bind_ok (apply_if K cfg overrides) h0 in
        let (checked, k) =
          (seq_iff (assert_no_placeholders_nitro K unverified_reader applied) _ (started, key)).0
            h1 in
        let (text, e2, h2) =
          bind_ok (resolve_operator_private_key overrides env.operator_private_key_var) k in
        let (found, e3, h3) =
          bind_ok (ok_or (K.parse_private_key text) bad_operator_private_key) h2 in
        let same = ap (λ x. x.0) (ok-injective h3) in
        (
          overrides,
          text,
          (Fetched-iff cfg.tee_type env.aws_region env.aws_secret_id overrides).0 e0,
          (Applied-iff cfg overrides started).0 (e1 ∙ ap ok same),
          subst (NoPlaceholders K unverified_reader) same
              ((assert_no_placeholders_nitro_iff K unverified_reader applied).0 checked),
          (key_iff overrides env.operator_private_key_var text).0 e2,
          ok_or_ok (K.parse_private_key text) bad_operator_private_key e3
              ∙ ap some (ap (λ x. x.1) (ok-injective h3)),
        ),
    λ (overrides, text, fetched, applied, clean, key_from, parsed).
        rw
          (
            (Fetched-iff cfg.tee_type env.aws_region env.aws_secret_id overrides).1 fetched,
            (Applied-iff cfg overrides started).1 applied,
            (assert_no_placeholders_nitro_iff K unverified_reader started).1 clean,
            (key_iff overrides env.operator_private_key_var text).1 key_from,
            parsed,
          )
          refl,
  )
