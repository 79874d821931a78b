-- ===== src/Store/Fallback.antt =====
-- da_api/nitro/store_fallback.rs: which certificate `resolve_downstream_cert` resolves.
use chain_adjacent_service.Prelude.{
  Result, ok, bind_ok, Bool-cases, Option-cases, ltb, ◌>>=◌, length, ℕ, ◌+◌, ◌≤◌, ◌≡◌, refl, sym,
  subst, ◌∙◌, ◌≢◌, false, ◌⊎◌, inl, inr, none, some, [], ◌∷◌, ◌↔◌, arith,
}
use chain_adjacent_service.Prelude.Words.{Bytes}
use chain_adjacent_service.Certificate.{espresso_cert_size}
use chain_adjacent_service.Store.{
  Downstream, DownstreamCertOutcome, StoreOutcome, cert, fallback, forward, downstream_cert,
  ServerState, nonempty_url, store_via, calldata, after_anytrust, after_primary, resolve_at,
  resolve_downstream_cert,
}

module _ (D : Downstream) (state : ServerState) (raw_data : Bytes) (timeout : ℕ)
    (body_id : D.Value) where
  -- The primary endpoint and the sidecar, as they answer here.
  abbrev pub Primary : StoreOutcome → Type 0
  Primary outcome = store_via D 0 state.da_config.endpoint_url raw_data timeout body_id ≡ ok outcome

  abbrev pub Anytrust : StoreOutcome → Type 0
  Anytrust outcome =
      (url : Bytes) × ((nonempty_url state.da_config.anytrust_fallback_url ≡ some url)
        × (store_via D 1 url raw_data timeout body_id ≡ ok outcome))

  -- The ways to a certificate: the data itself without an endpoint, what the primary endpoint answers,
  -- what the sidecar answers after the primary endpoint asked for the fallback, or the data itself
  -- where there is no sidecar or it asks for the fallback too, and it fits with the certificate.
  pub data Resolves : Bytes → Type 0 where
    without_endpoint : state.da_config.endpoint_url ≡ [] → Resolves raw_data
    by_primary : {c : Bytes} → state.da_config.endpoint_url ≢ [] → Primary (cert c) → Resolves c
    by_anytrust :
        {c : Bytes}
        → state.da_config.endpoint_url ≢ []
        → Primary fallback
        → Anytrust (cert c)
        → Resolves c
    by_calldata :
        state.da_config.endpoint_url ≢ []
        → Primary fallback
        → (nonempty_url state.da_config.anytrust_fallback_url ≡ none) ⊎ Anytrust fallback
        → espresso_cert_size + length raw_data ≤ state.calldata_max_size
        → Resolves raw_data

  url-cases : (url : Bytes) → (url ≡ []) ⊎ (url ≢ [])
  url-cases [] = inl refl
  url-cases (b ∷ bs) = inr (λ e. absurd (cc))

  resolve_at-endpoint :
      (url : Bytes)
      → url ≢ []
      → resolve_at D url state raw_data timeout body_id ≡ (
          store_via D 0 url raw_data timeout body_id
          >>= after_primary D state raw_data timeout body_id)
  resolve_at-endpoint [] h = absurd (h refl)
  resolve_at-endpoint (b ∷ bs) h = refl

  same_cert :
      {a b : Bytes} {E : Type 0}
      → Path (Result E DownstreamCertOutcome) (ok (downstream_cert a)) (ok (downstream_cert b))
      → a ≡ b
  same_cert e = cc

  calldata_sound :
      {c : Bytes}
      → calldata D state raw_data ≡ ok (downstream_cert c)
      → (raw_data ≡ c) × (espresso_cert_size + length raw_data ≤ state.calldata_max_size)
  calldata_sound h =
      elim (Bool-cases (ltb state.calldata_max_size (espresso_cert_size + length raw_data))) [
        | inl e ↦ let refused = rw e at h in absurd (cc)
        | inr e ↦ (same_cert (rw e at h), ground arith)
      ]

  after_anytrust_sound :
      {c : Bytes} (o : StoreOutcome)
      → state.da_config.endpoint_url ≢ []
      → Primary fallback
      → Anytrust o
      → after_anytrust D state raw_data o ≡ ok (downstream_cert c)
      → Resolves c
  after_anytrust_sound (cert d) ne first second h =
      subst Resolves (same_cert h) (by_anytrust ne first second)
  after_anytrust_sound (forward status bytes) ne first second h = absurd (cc)
  after_anytrust_sound fallback ne first second h =
      let (same, fits) = calldata_sound h in
      subst Resolves same (by_calldata ne first (inr second) fits)

  after_primary_sound :
      {c : Bytes} (o : StoreOutcome)
      → state.da_config.endpoint_url ≢ []
      → Primary o
      → after_primary D state raw_data timeout body_id o ≡ ok (downstream_cert c)
      → Resolves c
  after_primary_sound (cert d) ne first h = subst Resolves (same_cert h) (by_primary ne first)
  after_primary_sound (forward status bytes) ne first h = absurd (cc)
  after_primary_sound fallback ne first h =
      elim (Option-cases (nonempty_url state.da_config.anytrust_fallback_url)) [
        | inl e ↦
            let (same, fits) = calldata_sound (rw (e, after_primary) at h) in
            subst Resolves same (by_calldata ne first (inl e) fits)
        | inr (url, e) ↦
            let (o, via, next) =
              bind_ok (store_via D 1 url raw_data timeout body_id) (rw (e, after_primary) at h) in
            after_anytrust_sound o ne first (url, (e, via)) next
      ]

  resolve_sound :
      {c : Bytes}
      → resolve_downstream_cert D state raw_data timeout body_id ≡ ok (downstream_cert c)
      → Resolves c
  unfolding resolve_downstream_cert
  resolve_sound h = elim (url-cases state.da_config.endpoint_url) [
    | inl e ↦ subst Resolves (same_cert (rw e at h)) (without_endpoint e)
    | inr ne ↦
        let (o, via, next) =
          bind_ok (store_via D 0 state.da_config.endpoint_url raw_data timeout body_id)
            (sym (resolve_at-endpoint state.da_config.endpoint_url ne) ∙ h) in
        after_primary_sound o ne via next
  ]

  resolve_complete :
      {c : Bytes}
      → Resolves c
      → resolve_downstream_cert D state raw_data timeout body_id ≡ ok (downstream_cert c)
  unfolding resolve_downstream_cert
  resolve_complete (without_endpoint e) = rw e refl
  resolve_complete (by_primary ne first) =
      resolve_at-endpoint state.da_config.endpoint_url ne ∙ rw first refl
  resolve_complete (by_anytrust ne first (url, (e, second))) =
      resolve_at-endpoint state.da_config.endpoint_url ne
      ∙ rw (first, after_primary, e, second) refl
  resolve_complete (by_calldata ne first (inl e) fits) =
      let small : ltb state.calldata_max_size (espresso_cert_size + length raw_data) ≡ false =
        ground arith in
      resolve_at-endpoint state.da_config.endpoint_url ne ∙ rw (first, after_primary, e, small) refl
  resolve_complete (by_calldata ne first (inr (url, (e, second))) fits) =
      let small : ltb state.calldata_max_size (espresso_cert_size + length raw_data) ≡ false =
        ground arith in
      resolve_at-endpoint state.da_config.endpoint_url ne
      ∙ rw (first, after_primary, e, second, small) refl

  -- A certificate is resolved exactly in one of these ways, whatever the endpoints answer: the data
  -- goes to calldata only if each endpoint that is asked wants the fallback, and never where it and
  -- the certificate are larger than the limit.
  pub resolve_downstream_cert_iff :
      (c : Bytes)
      → (resolve_downstream_cert D state raw_data timeout body_id ≡ ok (downstream_cert c))
        ↔ Resolves c
  resolve_downstream_cert_iff c = (resolve_sound, resolve_complete)
