-- ===== src/Nitro.antt =====
-- rollups/nitro/types.rs and rollups/nitro/feed/message.rs: the data of the Nitro rollup. An
-- address, a hash and a `U256` are numbers.
pub mod Rlp
pub mod Batch
pub mod Hotshot
pub mod Instance
pub mod Payload
pub mod TestData
pub mod Examples
pub mod Signature
pub mod Verify
use chain_adjacent_service.Prelude.{ℕ, Option}
use chain_adjacent_service.Prelude.Words.{Bytes}

pub record L1IncomingMessageHeader : Type 0 where
  pub kind : ℕ
  pub poster : ℕ
  pub block_number : ℕ
  pub timestamp : ℕ
  pub request_id : Option ℕ
  pub l1_base_fee : Option ℕ

pub record BatchDataStats : Type 0 where
  pub length : ℕ
  pub non_zeros : ℕ

pub record L1IncomingMessage : Type 0 where
  pub header : Option L1IncomingMessageHeader
  pub l2msg : Bytes
  pub legacy_batch_gas_cost : Option ℕ
  pub batch_data_stats : Option BatchDataStats

pub record MessageWithMetadata : Type 0 where
  pub message : Option L1IncomingMessage
  pub delayed_messages_read : ℕ

pub record BroadcastFeedMessage : Type 0 where
  pub sequence_number : ℕ
  pub message : MessageWithMetadata
  pub signature : Bytes
  pub block_metadata : Bytes
  pub cumulative_sum_msg_size : ℕ
  pub block_hash : Option ℕ

pub data BatchMessage : Type 0 where
  l2_msg : Bytes → BatchMessage
  delayed_msg : BatchMessage

pub record BatchCursor : Type 0 where
  pub last_batch_delayed_messages_read : ℕ
  pub next_batch_start_pos : ℕ

abbrev pub default_cursor : BatchCursor
default_cursor = record { last_batch_delayed_messages_read = 1; next_batch_start_pos = 1 }

pub record NitroRollupQueueEntry : Type 0 where
  pub feed_message : BroadcastFeedMessage
  pub hotshot_height : ℕ

abbrev pub sequence_number : NitroRollupQueueEntry → ℕ
sequence_number e = e.feed_message.sequence_number
