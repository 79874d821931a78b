-- ===== src/Nitro/Instance.antt =====
-- rollups/nitro/nitro.rs: Nitro as an instance of the trait `Rollup`, and how a batch matches the
-- streamer's queue.
use chain_adjacent_service.Prelude.{Result, ok, err, ℕ, ◌≡◌, Option, none, some, List, ◌∷◌, ◌++◌}
use chain_adjacent_service.Prelude.Words.{Bytes}
use chain_adjacent_service.Rollup.{Rollup}
use chain_adjacent_service.Crypto.{Crypto}
use chain_adjacent_service.Streamer.{Streamer}
use chain_adjacent_service.Nitro.{
  L1IncomingMessage, MessageWithMetadata, BroadcastFeedMessage, BatchMessage, BatchCursor,
  default_cursor, NitroRollupQueueEntry, sequence_number,
}
use chain_adjacent_service.Nitro.Payload.{Json, NitroConfig}
use chain_adjacent_service.Nitro.Batch.{BatchError, Codecs, parse_batch}
use chain_adjacent_service.Nitro.Hotshot.{parse_hotshot_transactions}
use chain_adjacent_service.Nitro.Verify.{verify_batch_messages}
use chain_adjacent_service.Nitro.Verify.Matching.{Matches}

module _ (C : Crypto) (J : Json) (Z : Codecs) (rlp_encode : L1IncomingMessage → Bytes)
    (rlp_decode : Bytes → Option MessageWithMetadata) (config : NitroConfig) where
  abbrev to_option : {A : Type 0} → Result BatchError A → Option A
  to_option (ok a) = some a
  to_option (err e) = none

  abbrev pub nitro_rollup : Rollup
  nitro_rollup = record {
    Transaction = Bytes;
    Entry = NitroRollupQueueEntry;
    BatchMessage = BatchMessage;
    FeedMessage = BroadcastFeedMessage;
    BatchCursor = BatchCursor;
    default_cursor = default_cursor;
    sequence_number = sequence_number;
    hotshot_height = λ e. e.hotshot_height;
    parse_batch_data = λ bytes. to_option (parse_batch Z bytes);
    convert_entry_to_feed_message = λ e. e.feed_message;
    parse_hotshot_transactions = parse_hotshot_transactions C J rlp_encode rlp_decode config;
    verify_batch_messages = verify_batch_messages;
  }

  -- The batch matches a part of the queue that begins at the start position of the cursor.
  abbrev pub MatchesQueue : List BatchMessage → Streamer nitro_rollup → BatchCursor → Type 0
  MatchesQueue batch s cursor =
      (front : List NitroRollupQueueEntry) × (entry : NitroRollupQueueEntry) × (rest : List
        NitroRollupQueueEntry)
      × (m : ℕ) × (s.queue ≡ front ++ entry ∷ rest)
      × (sequence_number entry ≡ cursor.next_batch_start_pos)
      × Matches cursor.last_batch_delayed_messages_read batch (entry ∷ rest) m
