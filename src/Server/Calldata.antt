-- ===== src/Server/Calldata.antt =====
-- da_api/nitro/server.rs: the routes of `build_app`, and the stores on the one for calldata.
use chain_adjacent_service.Prelude.{
  ltb, Bool-cases, length, Result, ok, bind_ok, ok-injective, not_both, ℕ, ◌≤◌, ◌≡◌, ◌↔◌, refl, sym,
  ap, ◌∙◌, inl, inr, not, true, false, Option, some, List, [], ◌∷◌, ◌++◌, map, arith,
}
use chain_adjacent_service.Prelude.Words.{Bytes, bytes_eq}
use chain_adjacent_service.Rollup.{VerificationResult}
use chain_adjacent_service.Crypto.{Crypto, KeyManager, SignsRecoverably}
use chain_adjacent_service.Certificate.{DaApiError, configuration}
use chain_adjacent_service.Store.{
  Downstream, DownstreamCertOutcome, DaProviderConfig, ServerState, downstream_cert,
  downstream_forward, resolve_downstream_cert,
}
use chain_adjacent_service.Store.Fallback.{
  Resolves, without_endpoint, by_primary, by_anytrust, by_calldata,
}
use chain_adjacent_service.Server.{calldata_name, Response, Rpc, handle_store}
use chain_adjacent_service.Server.Answers.{ReadsStore, Certified, handle_store_sound}
use chain_adjacent_service.Server.Routes.{
  calldata_provider, new_state, mount, is_unreachable, check_providers, build_app,
}

abbrev pub calldata_state : ℕ → ServerState
calldata_state limit = record (new_state limit calldata_provider) { max_message_size = some limit }

-- The fallback of the provider is asked for, or there is none.
abbrev pub IsReachable : DaProviderConfig → Type 0
IsReachable p = is_unreachable p.endpoint_url p.anytrust_fallback_url ≡ false

abbrev pub AllReachable : List DaProviderConfig → Type 0
AllReachable [] = Unit {0}
AllReachable (p ∷ ps) = IsReachable p × AllReachable ps

check_providers_ok : (ps : List DaProviderConfig) → check_providers ps ≡ ok tt → AllReachable ps
check_providers_ok [] h = tt
check_providers_ok (p ∷ ps) h =
    elim (Bool-cases (is_unreachable p.endpoint_url p.anytrust_fallback_url)) [
      | inl e ↦ not_both {e = configuration} {a = tt} (rw e at h)
      | inr e ↦ (e, check_providers_ok ps (rw e at h))
    ]

check_providers_all : (ps : List DaProviderConfig) → AllReachable ps → check_providers ps ≡ ok tt
check_providers_all [] h = refl
check_providers_all (p ∷ ps) (e, h) = rw e (check_providers_all ps h)

map-calldata :
    (limit : ℕ) (ps : List DaProviderConfig)
    → map (mount limit) (ps ++ calldata_provider ∷ [])
      ≡ map (mount limit) ps ++ (calldata_name, calldata_state limit) ∷ []
unfolding mount bytes_eq
map-calldata limit [] = refl
map-calldata limit (p ∷ ps) = ap (λ xs. mount limit p ∷ xs) (map-calldata limit ps)

-- `build_app` succeeds exactly if each provider that has a fallback has an endpoint, which is asked
-- first. There is then one route for each provider, in their order, and one more, for calldata, whose
-- messages are at most as long as the limit and which has no endpoint.
pub build_app_iff :
    (providers : List DaProviderConfig) (limit : ℕ) (app : List (Bytes × ServerState))
    → (build_app providers limit ≡ ok app) ↔ (
        AllReachable providers
        × (app ≡ map (mount limit) providers ++ (calldata_name, calldata_state limit) ∷ []))
unfolding build_app
build_app_iff providers limit app = (
  λ h.
      let (u, checked, built) = bind_ok (check_providers providers) h in
      (
        check_providers_ok providers checked,
        sym (ok-injective built) ∙ map-calldata limit providers,
      ),
  λ (reachable, e).
      rw (check_providers_all providers reachable, e, map-calldata limit providers) refl,
)

module _ (C : Crypto) (D : Downstream) (P : Rpc D) (key_manager : KeyManager C) where
  -- The answer has a certificate around the message itself.
  abbrev pub CertifiesMessage : ℕ → D.Value → Bytes → ℕ → VerificationResult → Response → Type 0
  CertifiesMessage limit body message timeout result r =
      (c : Certified C D P key_manager (calldata_state limit) body message timeout result r)
      × (c.cert ≡ message)

  -- On the route for calldata no provider is asked: a store that is answered without an error has a
  -- verified message that is not longer than the limit, and the certificate is around the message itself.
  pub handle_store-calldata :
      (verify : Bytes → Option VerificationResult) (limit : ℕ) (body : D.Value) (r : Response)
      → SignsRecoverably C
      → handle_store C D P key_manager verify (calldata_state limit) body ≡ ok r
      → (message : Bytes) × (timeout : ℕ) × (result : VerificationResult) × (ReadsStore C D P
          key_manager body message timeout)
        × (length message ≤ limit)
        × (verify message ≡ some result)
        × (result.success ≡ true)
        × CertifiesMessage limit body message timeout result r
  unfolding resolve_downstream_cert
  handle_store-calldata verify limit body r sound h =
      let (message, timeout, result, reads, small, verified, success, answer) =
        handle_store_sound C D P key_manager verify (calldata_state limit) body r sound h in
      (
        message,
        timeout,
        result,
        reads,
        fits message small,
        verified,
        success,
        elim answer [
          | inl forwarded ↦ absurd (asked forwarded)
          | inr certified ↦ (certified, own certified.resolved)
        ],
      )
    where
      fits : (message : Bytes) → not (ltb limit (length message)) ≡ true → length message ≤ limit
      fits message h = ground arith

      asked :
          {message : Bytes}
          → Path
              (Result DaApiError DownstreamCertOutcome)
              (ok (downstream_cert message))
              (ok (downstream_forward r.status r.body))
          → ⊥
      asked h = cc

      own :
          {message : Bytes} {timeout : ℕ} {cert : Bytes}
          → Resolves D (calldata_state limit) message timeout (P.id body) cert
          → cert ≡ message
      own (without_endpoint e) = refl
      own (by_primary ne first) = absurd (ne refl)
      own (by_anytrust ne first second) = absurd (ne refl)
      own (by_calldata ne first second small) = refl
