-- ===== src/Server/Verified.antt =====
-- da_api/nitro/server.rs with streamer/streamer.rs and rollups/nitro/nitro.rs: a store on a service whose
-- rollup is Nitro, from the request to the certificate.
use chain_adjacent_service.Prelude.{
  ok, Option-cases, ℕ, ◌≡◌, sym, ap, ◌∙◌, ◌⊎◌, inl, inr, true, Option, some, List, arith,
}
use chain_adjacent_service.Prelude.Words.{codes, Bytes}
use chain_adjacent_service.Rollup.{VerificationResult, failure, Rollup}
use chain_adjacent_service.Crypto.{Crypto, KeyManager, SignsRecoverably}
use chain_adjacent_service.Streamer.{Streamer}
use chain_adjacent_service.Streamer.Run.{or_default, verify_request}
use chain_adjacent_service.Nitro.{L1IncomingMessage, MessageWithMetadata, BatchMessage, BatchCursor}
use chain_adjacent_service.Nitro.Payload.{Json, NitroConfig}
use chain_adjacent_service.Nitro.Batch.{Codecs}
use chain_adjacent_service.Nitro.Instance.{nitro_rollup, MatchesQueue}
use chain_adjacent_service.Nitro.Verify.{verify_batch_messages}
use chain_adjacent_service.Nitro.Verify.Correct.{verify_batch_messages_sound}
use chain_adjacent_service.Store.{Downstream, ServerState}
use chain_adjacent_service.Server.{Response, Rpc}
use chain_adjacent_service.Server.Routes.{handle_rpc, handle_rpc-store}
use chain_adjacent_service.Server.Answers.{ReadsStore, Forwarded, Certified, handle_store_sound}

-- A reply with success is the comparison of a batch that is parsed.
verify_request_success :
    (R : Rollup) (message : Bytes) (fetched : Option R.BatchCursor) (s : Streamer R)
    (result : VerificationResult)
    → verify_request R message fetched s ≡ result
    → result.success ≡ true
    → (batch : List R.BatchMessage) × (R.parse_batch_data message ≡ some batch)
      × (result ≡ R.verify_batch_messages batch s.queue (or_default R fetched))
unfolding verify_request
verify_request_success R message fetched s result e success =
    elim (Option-cases (R.parse_batch_data message)) [
      | inl g ↦ absurd (failed (rw (g, verify_request) at e) success)
      | inr (batch, g) ↦ (batch, g, sym (rw (g, verify_request) at e))
    ]
  where
    failed : failure ≡ result → result.success ≡ true → ⊥
    failed e success = ground arith

module _ (C : Crypto) (J : Json) (Z : Codecs) (rlp_encode : L1IncomingMessage → Bytes)
    (rlp_decode : Bytes → Option MessageWithMetadata) (config : NitroConfig) (D : Downstream)
    (P : Rpc D) (key_manager : KeyManager C) where
  -- The verification of the streamer in the given state, with the cursor that is fetched.
  abbrev pub verification :
      Streamer (nitro_rollup C J Z rlp_encode rlp_decode config)
      → Option BatchCursor
      → Bytes
      → Option VerificationResult
  verification s fetched message =
      some (verify_request (nitro_rollup C J Z rlp_encode rlp_decode config) message fetched s)

  -- The batch of the message, the cursor, and the result of comparing it with the queue.
  abbrev pub Verified :
      Streamer (nitro_rollup C J Z rlp_encode rlp_decode config)
      → Option BatchCursor
      → Bytes
      → VerificationResult
      → Type 0
  Verified s fetched message result =
      let cursor = or_default (nitro_rollup C J Z rlp_encode rlp_decode config) fetched in
      (batch : List BatchMessage) × ((nitro_rollup C J Z rlp_encode rlp_decode
            config).parse_batch_data
          message
        ≡ some batch)
      × MatchesQueue C J Z rlp_encode rlp_decode config batch s cursor
      × (result ≡ verify_batch_messages batch s.queue cursor)

  verify_request_sound :
      (s : Streamer (nitro_rollup C J Z rlp_encode rlp_decode config))
      (fetched : Option BatchCursor) (message : Bytes) (result : VerificationResult)
      → verification s fetched message ≡ some result
      → result.success ≡ true
      → Verified s fetched message result
  verify_request_sound s fetched message result e success =
      let R = nitro_rollup C J Z rlp_encode rlp_decode config in
      let (batch, parsed, compared) =
        verify_request_success R message fetched s result (some-injective e) success in
      let (front, entry, rest, m, whole, key, positive, matches, same) =
        verify_batch_messages_sound batch s.queue (or_default R fetched)
          (sym (ap (λ x. x.success) compared) ∙ success) in
      (batch, parsed, (front, entry, rest, m, whole, key, matches), compared)
    where
      some-injective :
          {a b : VerificationResult} → Path (Option VerificationResult) (some a) (some b) → a ≡ b
      some-injective h = cc

  -- Every certificate with which a service with a Nitro rollup answers the method `daprovider_store` is
  -- for a batch that is parsed from the data and matches the queue of the streamer from the position of
  -- the cursor on, and is of the result of that comparison. Any other answer without an error is the
  -- provider's own, and it too is given only after the comparison.
  pub handle_rpc-Verified :
      (s : Streamer (nitro_rollup C J Z rlp_encode rlp_decode config))
      (fetched : Option BatchCursor) (state : ServerState) (bytes : Bytes) (body : D.Value)
      (r : Response)
      → SignsRecoverably C
      → D.from_slice bytes ≡ some body
      → P.method body ≡ some (codes "daprovider_store")
      → handle_rpc C D P key_manager (verification s fetched) state bytes ≡ ok r
      → (message : Bytes) × (timeout : ℕ) × (result : VerificationResult) × (ReadsStore C D P
          key_manager body message timeout)
        × (Verified s fetched message result)
        × (Forwarded C D P key_manager state body message timeout r
            ⊎ Certified C D P key_manager state body message timeout result r)
  handle_rpc-Verified s fetched state bytes body r sound parsed method h =
      let (message, timeout, result, reads, small, verified, success, answer) =
        handle_store_sound C D P key_manager (verification s fetched) state body r sound (
          sym (
            handle_rpc-store C D P key_manager (verification s fetched) state bytes body parsed
              method)
          ∙ h) in
      (
        message,
        timeout,
        result,
        reads,
        verify_request_sound s fetched message result verified success,
        answer,
      )
