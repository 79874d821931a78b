-- ===== src/Server/Answers.antt =====
-- da_api/nitro/server.rs: what `handle_store` answers.
use chain_adjacent_service.Prelude.{
  ok, bind_ok, guard_ok, ok_or_ok, ok-injective, ok_or, guard, ℕ, ◌≡◌, sym, ap, ◌∙◌, subst, ◌⊎◌,
  inl, inr, true, Option, some,
}
use chain_adjacent_service.Prelude.Words.{Bytes}
use chain_adjacent_service.Rollup.{VerificationResult}
use chain_adjacent_service.Crypto.{Crypto, KeyManager, SignsRecoverably}
use chain_adjacent_service.Certificate.{to_bytes, parsing_error}
use chain_adjacent_service.Certificate.Signing.{build_espresso_certificate, validate}
use chain_adjacent_service.Certificate.Extraction.{
  certified, built, build_espresso_certificate-validate,
}
use chain_adjacent_service.Store.{
  Downstream, DownstreamCertOutcome, downstream_cert, downstream_forward, ServerState,
  resolve_downstream_cert,
}
use chain_adjacent_service.Store.Fallback.{Resolves, resolve_downstream_cert_iff}
use chain_adjacent_service.Server.{
  Response, store_answer, Rpc, two_params, within_max_size, certify, handle_store,
}

module _ (C : Crypto) (D : Downstream) (P : Rpc D) (key_manager : KeyManager C) where
  -- The request is a store of the message with the timeout.
  abbrev pub ReadsStore : D.Value → Bytes → ℕ → Type 0
  ReadsStore body message timeout =
      (params : D.Value × D.Value) × (two_params (P.params body) ≡ some params)
      × (P.as_bytes params.0 ≡ some message)
      × (P.as_u64 params.1 ≡ some timeout)

  -- The response is the answer of the provider.
  abbrev pub Forwarded : ServerState → D.Value → Bytes → ℕ → Response → Type 0
  Forwarded state body message timeout r =
      resolve_downstream_cert D state message timeout (P.id body)
      ≡ ok (downstream_forward r.status r.body)

  -- The response has a certificate of the service, of the positions of the verification, around one
  -- that is resolved for the message, and the certificate is valid for the key of the service.
  pub record Certified (state : ServerState) (body : D.Value) (message : Bytes) (timeout : ℕ)
      (result : VerificationResult) (r : Response) : Type 0 where
    pub cert : Bytes
    pub signature : Bytes
    pub bytes : Bytes
    pub resolved : Resolves D state message timeout (P.id body) cert
    pub written :
        to_bytes (
          certified C result.start_message_position result.end_message_position
            result.start_espresso_block result.after_delayed_messages_read
            result.min_espresso_block_still_in_queue cert signature)
        ≡ ok bytes
    pub valid :
        validate C
          (certified C result.start_message_position result.end_message_position
            result.start_espresso_block result.after_delayed_messages_read
            result.min_espresso_block_still_in_queue cert signature)
          (C.address key_manager.signer)
          key_manager.parent_chain_id
          key_manager.tee_verifier_address
        ≡ ok tt
    pub answered : P.to_vec (store_answer (P.id body) bytes) ≡ some r.body
    pub success_status : r.status ≡ 200

  certify_lem :
      (state : ServerState) (body : D.Value) (message : Bytes) (timeout : ℕ)
      (result : VerificationResult) (outcome : DownstreamCertOutcome) (r : Response)
      → SignsRecoverably C
      → resolve_downstream_cert D state message timeout (P.id body) ≡ ok outcome
      → certify C D P key_manager result (P.id body) outcome ≡ ok r
      → Forwarded state body message timeout r ⊎ Certified state body message timeout result r
  unfolding certify
  certify_lem state body message timeout result (downstream_forward status bytes) r sound e h =
      inl (e ∙ ap (λ x. ok (downstream_forward x.status x.body)) (ok-injective h))
  certify_lem state body message timeout result (downstream_cert cert) r sound e h =
      let (c, made, h1) =
        bind_ok
          (build_espresso_certificate C key_manager result.start_message_position
            result.end_message_position result.start_espresso_block
            result.after_delayed_messages_read result.min_espresso_block_still_in_queue cert)
          h in
      let (bytes, wrote, h2) = bind_ok (to_bytes c) h1 in
      let (text, told, h3) =
        bind_ok (ok_or (P.to_vec (store_answer (P.id body) bytes)) parsing_error) h2 in
      let same : record { status = 200; body = text } ≡ r = ok-injective h3 in
      let (sig, long, signed, is_c) =
        built C key_manager result.start_message_position result.end_message_position
          result.start_espresso_block result.after_delayed_messages_read
          result.min_espresso_block_still_in_queue cert c made in
      let holds =
        build_espresso_certificate-validate C key_manager result.start_message_position
          result.end_message_position result.start_espresso_block result.after_delayed_messages_read
          result.min_espresso_block_still_in_queue cert c sound made in
      inr (record {
        cert = cert;
        signature = sig;
        bytes = bytes;
        resolved = (resolve_downstream_cert_iff D state message timeout (P.id body) cert).0 e;
        written = sym (ap to_bytes is_c) ∙ wrote;
        valid =
            subst
              (λ x.
                validate C x (C.address key_manager.signer) key_manager.parent_chain_id
                  key_manager.tee_verifier_address
                ≡ ok tt)
              is_c holds;
        answered =
            ok_or_ok (P.to_vec (store_answer (P.id body) bytes)) _ told
            ∙ ap (λ x. some x.body) same;
        success_status = sym (ap (λ x. x.status) same);
      })

  -- A response without an error comes only for a request that is read as a store, of a message within
  -- the limit of the route, for which the verification replied with success. It is then what the
  -- provider answered, or it has a certificate of the service: of the positions of the verification,
  -- around a certificate that is resolved for the message, and valid for the key of the service.
  pub handle_store_sound :
      (verify : Bytes → Option VerificationResult) (state : ServerState) (body : D.Value)
      (r : Response)
      → SignsRecoverably C
      → handle_store C D P key_manager verify state body ≡ ok r
      → (message : Bytes) × (timeout : ℕ) × (result : VerificationResult) × (ReadsStore body message
          timeout)
        × (within_max_size state.max_message_size message ≡ true)
        × (verify message ≡ some result)
        × (result.success ≡ true)
        × (Forwarded state body message timeout r ⊎ Certified state body message timeout result r)
  unfolding handle_store
  handle_store_sound verify state body r sound h =
      let (params, e0, h0) = bind_ok (ok_or (two_params (P.params body)) _) h in
      let (message, e1, h1) = bind_ok (ok_or (P.as_bytes params.0) _) h0 in
      let (timeout, e2, h2) = bind_ok (ok_or (P.as_u64 params.1) _) h1 in
      let (u, e3, h3) = bind_ok (guard (within_max_size state.max_message_size message) _) h2 in
      let (result, e4, h4) = bind_ok (ok_or (verify message) _) h3 in
      let (v, e5, h5) = bind_ok (guard result.success _) h4 in
      let (outcome, e6, h6) =
        bind_ok (resolve_downstream_cert D state message timeout (P.id body)) h5 in
      (
        message,
        timeout,
        result,
        (
          params,
          ok_or_ok (two_params (P.params body)) _ e0,
          ok_or_ok (P.as_bytes params.0) _ e1,
          ok_or_ok (P.as_u64 params.1) _ e2,
        ),
        guard_ok (within_max_size state.max_message_size message) _ e3,
        ok_or_ok (verify message) _ e4,
        guard_ok result.success _ e5,
        certify_lem state body message timeout result outcome r sound e6 h6,
      )
