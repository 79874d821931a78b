-- ===== src/Server/Examples.antt =====
-- A store of a batch on a service with Nitro, the two recoveries of it, and the routes.
use chain_adjacent_service.Prelude.{
  ok, length, replicate, get_elem?, ℕ, ◌<◌, ◌≤◌, ◌≡◌, refl, ◌⊎◌, true, false, Option, some, [], ◌∷◌,
  ◌++◌, arith,
}
use chain_adjacent_service.Prelude.Words.{All, codes, Bytes, bytes_eq, to_be_bytes, from_be_bytes}
use chain_adjacent_service.BtreeMap.{partition_point, member, insert_at}
use chain_adjacent_service.Rollup.{VerificationResult, Rollup}
use chain_adjacent_service.Certificate.{CasCertificate, fields_bytes, to_bytes}
use chain_adjacent_service.Certificate.Signing.{v0_header, build_espresso_certificate}
use chain_adjacent_service.Nitro.TestData.{
  test_json, test_crypto, test_crypto-SignsRecoverably, test_codecs,
}
use chain_adjacent_service.Nitro.Examples.{
  signed_json, signed_block, test_batch, test_cursor, nitro_streamer, test_config, rlp_blank,
  rlp_none,
}
use chain_adjacent_service.Store.{resolve_downstream_cert, store_via}
use chain_adjacent_service.Streamer.{filter_messages}
use chain_adjacent_service.Streamer.Run.{
  Loop, start, step, transactions_received, here, then_step, handle_hotshot_transactions,
  verify_request,
}
use chain_adjacent_service.Config.{default_streamer_config}
use chain_adjacent_service.Nitro.{BatchCursor}
use chain_adjacent_service.Nitro.Hotshot.{parse_hotshot_transactions}
use chain_adjacent_service.Nitro.Instance.{nitro_rollup}
use chain_adjacent_service.Nitro.Batch.{parse_batch}
use chain_adjacent_service.Nitro.Verify.{verify_batch_messages}
use chain_adjacent_service.Server.{
  Response, handle_store, handle_recover_inner, route_recover, is_byte,
}
use chain_adjacent_service.Server.Routes.{handle_rpc}
use chain_adjacent_service.Server.Verified.{verification, Verified}
use chain_adjacent_service.Server.Signed.{Signed, handle_rpc-Signed}
use chain_adjacent_service.Server.Answers.{ReadsStore, Forwarded, Certified}
use chain_adjacent_service.Server.Calldata.{calldata_state, CertifiesMessage, handle_store-calldata}
use chain_adjacent_service.Server.Recovery.{
  ReadsRecover, Unwrapped, handle_recover_inner_sound,
  handle_recover_inner-build_espresso_certificate,
}
use chain_adjacent_service.Server.TestData.{
  store_call, recover_call, test_downstream, test_rpc, test_state, test_key_manager,
}

abbrev test_verification : Bytes → Option VerificationResult
test_verification =
    verification test_crypto test_json test_codecs rlp_blank rlp_none test_config test_downstream
      test_rpc test_key_manager nitro_streamer (some test_cursor)

abbrev stored_certificate : CasCertificate
stored_certificate = record {
  header = v0_header;
  start_message_pos = 5;
  end_message_pos = 5;
  start_hotshot_block = 105;
  after_delayed_messages_read = 3;
  min_hotshot_block_still_in_streamer_queue = 107;
  cas_signature = replicate 65 1;
  downstream_certificate = 221 ∷ 222 ∷ [];
}

abbrev stored_bytes : Bytes
stored_bytes = v0_header ++ fields_bytes stored_certificate

abbrev stored : Response
stored = record { status = 200; body = stored_bytes }

test_stored :
    handle_rpc test_crypto test_downstream test_rpc test_key_manager test_verification test_state
      test_batch
    ≡ ok stored
unfolding handle_rpc bytes_eq handle_store verify_request parse_batch verify_batch_messages
    resolve_downstream_cert store_via build_espresso_certificate to_bytes
test_stored = refl

abbrev signed_nitro : Rollup
signed_nitro = nitro_rollup test_crypto signed_json test_codecs rlp_blank rlp_none test_config

-- The streamer after a block with a signed message, and a store of a batch with that message.
abbrev signed_loop : Loop signed_nitro
signed_loop =
    step signed_nitro (transactions_received (signed_block ∷ []) 100)
      (start signed_nitro default_streamer_config 0 10)

abbrev signed_cursor : BatchCursor
signed_cursor = record { last_batch_delayed_messages_read = 0; next_batch_start_pos = 4 }

abbrev signed_verification : Bytes → Option VerificationResult
signed_verification =
    verification test_crypto signed_json test_codecs rlp_blank rlp_none test_config test_downstream
      test_rpc test_key_manager signed_loop.broadcast.streamer (some signed_cursor)

abbrev signed_certificate : CasCertificate
signed_certificate = record stored_certificate {
  start_message_pos = 4;
  end_message_pos = 4;
  start_hotshot_block = 100;
  after_delayed_messages_read = 1;
  min_hotshot_block_still_in_streamer_queue = 0;
}

abbrev signed_answer : Response
signed_answer = record { status = 200; body = v0_header ++ fields_bytes signed_certificate }

test_signed_answer :
    handle_rpc test_crypto test_downstream test_rpc test_key_manager signed_verification test_state
      test_batch
    ≡ ok signed_answer
unfolding handle_rpc bytes_eq handle_store verify_request parse_batch verify_batch_messages
    resolve_downstream_cert store_via build_espresso_certificate to_bytes step start
    handle_hotshot_transactions filter_messages parse_hotshot_transactions partition_point member
    insert_at to_be_bytes from_be_bytes
test_signed_answer = refl

handle_rpc-Signed_example :
    All
      (Signed test_crypto signed_json test_codecs rlp_blank rlp_none test_config)
      signed_loop.broadcast.streamer.queue
    × ((message : Bytes) × (timeout : ℕ) × (result : VerificationResult) × (ReadsStore test_crypto
          test_downstream test_rpc test_key_manager
          (store_call test_batch 60)
          message
          timeout)
        × (Verified test_crypto signed_json test_codecs rlp_blank rlp_none test_config
            test_downstream test_rpc test_key_manager signed_loop.broadcast.streamer
            (some signed_cursor)
            message
            result)
        × (Forwarded test_crypto test_downstream test_rpc test_key_manager test_state
              (store_call test_batch 60)
              message
              timeout
              signed_answer
            ⊎ Certified test_crypto test_downstream test_rpc test_key_manager test_state
                (store_call test_batch 60)
                message
                timeout
                result
                signed_answer))
handle_rpc-Signed_example =
    handle_rpc-Signed test_crypto signed_json test_codecs rlp_blank rlp_none test_config
      test_downstream test_rpc test_key_manager default_streamer_config 0 10 signed_loop
      (some signed_cursor) test_state test_batch (store_call test_batch 60) signed_answer
      (then_step (transactions_received (signed_block ∷ []) 100) tt here)
      test_crypto-SignsRecoverably refl refl test_signed_answer

abbrev small_certificate : CasCertificate
small_certificate = record stored_certificate { downstream_certificate = test_batch }

abbrev on_calldata : Response
on_calldata = record { status = 200; body = v0_header ++ fields_bytes small_certificate }

test_on_calldata :
    handle_store test_crypto test_downstream test_rpc test_key_manager test_verification
      (calldata_state 1000)
      (store_call test_batch 60)
    ≡ ok on_calldata
unfolding handle_store verify_request parse_batch verify_batch_messages resolve_downstream_cert
    store_via build_espresso_certificate to_bytes
test_on_calldata = refl

handle_store-calldata_example :
    (message : Bytes) × (timeout : ℕ) × (result : VerificationResult) × (ReadsStore test_crypto
      test_downstream test_rpc test_key_manager
      (store_call test_batch 60)
      message
      timeout)
    × (length message ≤ 1000)
    × (test_verification message ≡ some result)
    × (result.success ≡ true)
    × CertifiesMessage test_crypto test_downstream test_rpc test_key_manager 1000
        (store_call test_batch 60)
        message
        timeout
        result
        on_calldata
handle_store-calldata_example =
    handle_store-calldata test_crypto test_downstream test_rpc test_key_manager test_verification
      1000 (store_call test_batch 60) on_calldata test_crypto-SignsRecoverably test_on_calldata

abbrev sequencer_header : Bytes
sequencer_header = replicate 40 2

test_built :
    build_espresso_certificate test_crypto test_key_manager 5 5 105 3 107 (221 ∷ 222 ∷ [])
    ≡ ok stored_certificate
unfolding build_espresso_certificate
test_built = refl

test_written : to_bytes stored_certificate ≡ ok stored_bytes
unfolding to_bytes
test_written = refl

handle_recover_inner-build_espresso_certificate_example :
    handle_recover_inner test_crypto test_downstream test_rpc test_key_manager test_state
      (recover_call 3 4 (sequencer_header ++ stored_bytes))
      (codes "daprovider_recoverPayload")
    ≡ handle_recover_inner test_crypto test_downstream test_rpc test_key_manager test_state
        (recover_call 3 4 (sequencer_header ++ 221 ∷ 222 ∷ []))
        (codes "daprovider_recoverPayload")
handle_recover_inner-build_espresso_certificate_example =
    handle_recover_inner-build_espresso_certificate test_crypto test_downstream test_rpc
      test_key_manager test_state (recover_call 3 4 (sequencer_header ++ stored_bytes))
      (recover_call 3 4 (sequencer_header ++ 221 ∷ 222 ∷ [])) (codes "daprovider_recoverPayload") 3
      4 5 5 105 3 107 (221 ∷ 222 ∷ []) sequencer_header stored_bytes stored_certificate
      test_crypto-SignsRecoverably (omega arith, omega arith, omega arith, omega arith, omega arith)
      refl test_built test_written refl refl (_, refl, refl, refl, refl) (_, refl, refl, refl, refl)

abbrev passed_on : Response
passed_on = record { status = 200; body = 1 ∷ [] }

test_recovered :
    handle_recover_inner test_crypto test_downstream test_rpc test_key_manager test_state
      (recover_call 3 4 (sequencer_header ++ 221 ∷ 222 ∷ []))
      (codes "daprovider_recoverPayload")
    ≡ ok passed_on
unfolding handle_recover_inner bytes_eq
test_recovered = refl

handle_recover_inner_sound_example :
    (batch_num : ℕ) × (batch_block_hash : ℕ) × (sequencer_msg : Bytes) × (da_certificate : Bytes)
    × (ReadsRecover test_crypto test_downstream test_rpc test_key_manager
        (recover_call 3 4 (sequencer_header ++ 221 ∷ 222 ∷ []))
        batch_num
        batch_block_hash
        sequencer_msg)
    × (40 < length sequencer_msg)
    × (((is_byte (get_elem? sequencer_msg 40) 112 ≡ true)
          × Unwrapped test_crypto test_downstream test_rpc test_key_manager sequencer_msg
              da_certificate)
        ⊎ ((is_byte (get_elem? sequencer_msg 40) 112 ≡ false) × (da_certificate ≡ sequencer_msg)))
    × (route_recover test_crypto test_downstream test_rpc test_state
          (recover_call 3 4 (sequencer_header ++ 221 ∷ 222 ∷ []))
          (codes "daprovider_recoverPayload")
          batch_num
          batch_block_hash
          da_certificate
        ≡ ok passed_on)
handle_recover_inner_sound_example =
    handle_recover_inner_sound test_crypto test_downstream test_rpc test_key_manager test_state
      (recover_call 3 4 (sequencer_header ++ 221 ∷ 222 ∷ [])) (codes "daprovider_recoverPayload")
      passed_on test_recovered
