-- ===== src/Rollup.antt =====
-- rollups/rollup.rs: what the streamer asks of a rollup. `VerificationResult` is of lib.rs.
use chain_adjacent_service.Prelude.{ℕ, Bool, false, Option, List}
use chain_adjacent_service.Prelude.Words.{Bytes}

pub record VerificationResult : Type 0 where
  pub success : Bool
  pub start_message_position : ℕ
  pub end_message_position : ℕ
  pub start_espresso_block : ℕ
  pub after_delayed_messages_read : ℕ
  pub min_espresso_block_still_in_queue : ℕ

abbrev pub failure : VerificationResult
failure = record {
  success = false;
  start_message_position = 0;
  end_message_position = 0;
  start_espresso_block = 0;
  after_delayed_messages_read = 0;
  min_espresso_block_still_in_queue = 0;
}

-- The associated types and functions of the trait that the streamer uses. `Transaction` is
-- Espresso's; a configuration that a function takes is part of the value.
pub record Rollup : Type 1 where
  pub Transaction : Type 0
  pub Entry : Type 0
  pub BatchMessage : Type 0
  pub FeedMessage : Type 0
  pub BatchCursor : Type 0
  pub default_cursor : BatchCursor
  pub sequence_number : Entry → ℕ
  pub hotshot_height : Entry → ℕ
  pub parse_batch_data : Bytes → Option (List BatchMessage)
  pub convert_entry_to_feed_message : Entry → FeedMessage
  pub parse_hotshot_transactions : List (List Transaction) → ℕ → List Entry
  pub verify_batch_messages : List BatchMessage → List Entry → BatchCursor → VerificationResult
