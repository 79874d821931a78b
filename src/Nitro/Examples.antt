-- ===== src/Nitro/Examples.antt =====
-- Concrete runs of the Nitro rollup.
use chain_adjacent_service.Prelude.{
  length, replicate, ok, err, ℕ, zero, suc, ◌+◌, ◌≤◌, ◌<◌, ◌≡◌, refl, sym, ap, subst, true, Option,
  none, some, List, [], ◌∷◌, ◌++◌, map, arith,
}
use chain_adjacent_service.Prelude.Words.{Bytes, All, to_be_bytes, from_be_bytes}
use chain_adjacent_service.BtreeMap.{member}
use chain_adjacent_service.Rollup.{Rollup}
use chain_adjacent_service.Config.{default_streamer_config}
use chain_adjacent_service.Streamer.{Streamer}
use chain_adjacent_service.Nitro.{
  L1IncomingMessage, MessageWithMetadata, BroadcastFeedMessage, delayed_msg, BatchCursor,
  NitroRollupQueueEntry, sequence_number,
}
use chain_adjacent_service.Nitro.Payload.{
  Json, NitroConfig, FeedMessageVerifier, with_len, build_espresso_tx_payload, build_tx_fn,
  parse_nitro_hotshot_payload,
}
use chain_adjacent_service.Nitro.Payload.Parsing.{accepted}
use chain_adjacent_service.Nitro.Payload.Filling.{sendable}
use chain_adjacent_service.Nitro.Payload.RoundTrip.{parse-build_espresso_tx_payload}
use chain_adjacent_service.Nitro.Payload.Draining.{
  Fit, Delivers, build_tx_fn-Delivers, build_tx_fn_stuck,
}
use chain_adjacent_service.Nitro.Batch.{BatchError, decompress, decode_segments, parse_batch}
use chain_adjacent_service.Nitro.Batch.Slots.{slots, Replays, parse_batch-Replays}
use chain_adjacent_service.Nitro.Batch.Fuel.{parse_batch_terminates}
use chain_adjacent_service.Nitro.Hotshot.{parse_hotshot_transactions}
use chain_adjacent_service.Nitro.Hotshot.Heights.{
  SignedWithin, parse_hotshot_transactions-SignedWithin,
}
use chain_adjacent_service.Nitro.Verify.{verified, verify_batch_messages}
use chain_adjacent_service.Nitro.Verify.Matching.{Matches, done, delayed}
use chain_adjacent_service.Nitro.Verify.Correct.{
  verify_batch_messages_sound, verify_batch_messages_complete, verify_batch_messages_gap,
}
use chain_adjacent_service.Nitro.Instance.{nitro_rollup}
use chain_adjacent_service.Nitro.TestData.{
  bare, test_json, test_json-ReadsBack, test_crypto, test_codecs, test_codecs-Consumes,
}

abbrev pub test_config : NitroConfig
test_config = record {
  legacy_signer_addresses = [];
  chain_id = 1;
  trusted_sequencer_addresses = 7 ∷ [];
}

abbrev accept_all : FeedMessageVerifier
accept_all chain_id addresses msg = true

abbrev pub rlp_none : Bytes → Option MessageWithMetadata
rlp_none bytes = none

abbrev pub rlp_blank : L1IncomingMessage → Bytes
rlp_blank m = []

abbrev two_messages : List BroadcastFeedMessage
two_messages = bare 1 1 ∷ bare 2 1 ∷ []

parse-build_espresso_tx_payload_example :
    let (payload, left) = build_espresso_tx_payload test_json two_messages in
    (front : List BroadcastFeedMessage) × (front ++ left ≡ two_messages)
    × (length payload ≤ 921600)
    × (parse_nitro_hotshot_payload test_json test_config payload accept_all
        ≡ ok (accepted test_json accept_all test_config (sendable test_json front)))
parse-build_espresso_tx_payload_example =
    parse-build_espresso_tx_payload test_json accept_all test_config two_messages (123 ∷ [])
      test_json-ReadsBack refl (omega arith)

two_messages-Fit : Fit test_json (123 ∷ []) two_messages
two_messages-Fit = (λ e h. small 1 1 e h, (λ e h. small 2 1 e h, tt))
  where
    small :
        (seq count : ℕ) (e : Bytes)
        → some (seq ∷ count ∷ []) ≡ some e
        → 8 + 1 + 8 + length e ≤ 921600
    small seq count e h =
        let same : (seq ∷ count ∷ []) ≡ e = ground arith in omega (arith, ap length same)

build_tx_fn-Delivers_example :
    (txes : List Bytes) × (build_tx_fn test_json 2 two_messages ≡ some txes)
    × Delivers test_json accept_all test_config txes
        (accepted test_json accept_all test_config (sendable test_json two_messages))
build_tx_fn-Delivers_example =
    build_tx_fn-Delivers test_json accept_all test_config 2 two_messages (123 ∷ [])
      test_json-ReadsBack refl (omega arith) two_messages-Fit (omega arith)

zeros : ℕ → Bytes
zeros n = replicate n 0

length-zeros : (n : ℕ) → length (zeros n) ≡ n
unfolding zeros
length-zeros zero = refl
length-zeros (suc n) = omega (arith, length-zeros n)

-- A codec whose messages are too long for a payload.
abbrev long_json : Json
long_json = record test_json { message_to_vec = λ m. some (zeros 921600) }

too_long : 921600 < 8 + 1 + 8 + length (zeros 921600)
too_long = subst (λ n. 921600 < 8 + 1 + 8 + n) (sym (length-zeros 921600)) (omega arith)

build_tx_fn_stuck_example : build_tx_fn long_json 3 (bare 1 1 ∷ []) ≡ none
build_tx_fn_stuck_example =
    build_tx_fn_stuck long_json 3 (bare 1 1) [] (123 ∷ []) (zeros 921600) refl refl too_long

-- A delayed message and two segments without a message.
abbrev pub test_batch : Bytes
test_batch = 0 ∷ 1 ∷ 2 ∷ 0 ∷ 2 ∷ 3 ∷ 5 ∷ []

test_batch_parsed : parse_batch test_codecs test_batch ≡ ok (delayed_msg ∷ [])
unfolding parse_batch
test_batch_parsed = refl

parse_batch-Replays_example :
    (payload segment_data : Bytes) × (segments : List Bytes) × (test_batch ≡ 0 ∷ payload)
    × (decompress test_codecs payload 16777216 ≡ ok segment_data)
    × (decode_segments test_codecs (length segment_data) 0 segment_data ≡ ok segments)
    × (length segments ≤ 102400)
    × Replays test_codecs segments (delayed_msg ∷ [])
    × (1 ≡ slots test_codecs segments)
parse_batch-Replays_example =
    parse_batch-Replays test_codecs test_batch (delayed_msg ∷ []) test_batch_parsed

parse_batch_terminates_example : ¬ (parse_batch test_codecs test_batch ≡ err BatchError.out_of_fuel)
parse_batch_terminates_example = parse_batch_terminates test_codecs test_batch test_codecs-Consumes

abbrev pub signed : BroadcastFeedMessage
signed = record {
  sequence_number = 4;
  message = record {
    message = some (record {
      header = none;
      l2msg = 9 ∷ [];
      legacy_batch_gas_cost = none;
      batch_data_stats = none;
    });
    delayed_messages_read = 1;
  };
  signature = replicate 65 1;
  block_metadata = [];
  cumulative_sum_msg_size = 0;
  block_hash = none;
}

-- A codec that reads a signed message.
abbrev pub signed_json : Json
signed_json = record test_json { message_from_slice = λ bytes. some signed }

abbrev pub signed_block : List Bytes
signed_block = (with_len (123 ∷ []) ++ with_len (5 ∷ [])) ∷ []

-- A payload of the legacy format, with the message of index 6, and a configuration with its signer.
abbrev legacy_block : List Bytes
legacy_block = (with_len (replicate 65 1) ++ 0 ∷ 0 ∷ 0 ∷ 0 ∷ 0 ∷ 0 ∷ 0 ∷ 6 ∷ with_len (9 ∷ [])) ∷ []

abbrev with_legacy : NitroConfig
with_legacy = record test_config { legacy_signer_addresses = 7 ∷ [] }

abbrev decodes : Bytes → Option MessageWithMetadata
decodes bytes = some signed.message

abbrev two_blocks : List (List Bytes)
two_blocks = signed_block ∷ legacy_block ∷ []

test_two_blocks :
    map sequence_number (
      parse_hotshot_transactions test_crypto signed_json rlp_blank decodes with_legacy two_blocks
        100)
    ≡ 4 ∷ 6 ∷ []
unfolding parse_hotshot_transactions to_be_bytes from_be_bytes member
test_two_blocks = refl

parse_hotshot_transactions-SignedWithin_example :
    All (SignedWithin test_crypto signed_json rlp_blank decodes with_legacy 100 two_blocks) (
      parse_hotshot_transactions test_crypto signed_json rlp_blank decodes with_legacy two_blocks
        100)
parse_hotshot_transactions-SignedWithin_example =
    parse_hotshot_transactions-SignedWithin test_crypto signed_json rlp_blank decodes with_legacy
      two_blocks 100 (omega arith)

abbrev pub queued_at : ℕ → ℕ → NitroRollupQueueEntry
queued_at seq count = record { feed_message = bare seq count; hotshot_height = 100 + seq }

abbrev pub test_queue : List NitroRollupQueueEntry
test_queue = queued_at 4 2 ∷ queued_at 5 3 ∷ queued_at 7 4 ∷ []

abbrev pub test_cursor : BatchCursor
test_cursor = record { last_batch_delayed_messages_read = 2; next_batch_start_pos = 5 }

test_verified : (verify_batch_messages (delayed_msg ∷ []) test_queue test_cursor).success ≡ true
unfolding verify_batch_messages
test_verified = refl

verify_batch_messages_sound_example :
    (front : List NitroRollupQueueEntry) × (entry : NitroRollupQueueEntry) × (rest : List
      NitroRollupQueueEntry)
    × (m : ℕ) × (test_queue ≡ front ++ entry ∷ rest)
    × (sequence_number entry ≡ 5)
    × (0 < 1)
    × (Matches 2 (delayed_msg ∷ []) (entry ∷ rest) m)
    × (verify_batch_messages (delayed_msg ∷ []) test_queue test_cursor
        ≡ verified (delayed_msg ∷ []) (entry ∷ rest) 5 m)
verify_batch_messages_sound_example =
    verify_batch_messages_sound (delayed_msg ∷ []) test_queue test_cursor test_verified

verify_batch_messages_complete_example :
    verify_batch_messages (delayed_msg ∷ []) test_queue test_cursor
    ≡ verified (delayed_msg ∷ []) (queued_at 5 3 ∷ queued_at 7 4 ∷ []) 5 3
verify_batch_messages_complete_example =
    verify_batch_messages_complete delayed_msg [] test_cursor (queued_at 4 2 ∷ []) (queued_at 5 3)
      (queued_at 7 4 ∷ []) 3 (omega arith) refl (delayed refl done)

verify_batch_messages_gap_example :
    let result = verify_batch_messages (delayed_msg ∷ delayed_msg ∷ []) test_queue test_cursor in
    (result.success ≡ true) × (result.end_message_position < 7)
verify_batch_messages_gap_example =
    verify_batch_messages_gap delayed_msg delayed_msg test_cursor (queued_at 4 2 ∷ [])
      (queued_at 5 3) (queued_at 7 4) [] 4 (omega arith) refl (omega arith) (omega arith)
      (delayed refl (delayed refl done))

abbrev pub nitro : Rollup
nitro = nitro_rollup test_crypto test_json test_codecs rlp_blank rlp_none test_config

abbrev pub nitro_streamer : Streamer nitro
nitro_streamer = record {
  queue = test_queue;
  stubs = [];
  config = default_streamer_config;
  finalized_idx = 3;
  last_broadcast_position = 3;
}
