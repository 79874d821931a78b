-- ===== src/L1Monitor.antt =====
-- rollups/nitro/l1_monitor.rs: the search for the latest checkpoint on the parent chain, and the
-- loop that follows the number of finalized messages.
pub mod Examples
pub mod Checkpoint
pub mod Scan
use chain_adjacent_service.Prelude.{
  ltb, leb, ◌==◌, if◌then◌else◌, last, Result, ok, err, ◌>>=◌, ℕ, zero, suc, ◌-◌, max, Option, none,
  some, List,
}
use chain_adjacent_service.Nitro.{BatchCursor, default_cursor}

pub data L1MonitorError : Type 0 where
  provider contract out_of_fuel : L1MonitorError
  checkpoint_not_found : ℕ → L1MonitorError

-- The fields of the event `EspressoCertificateVerified` that are read, each of 64 bits.
pub record EspressoCertificateVerified : Type 0 where
  pub hotshot_block : ℕ
  pub delayed_message_read : ℕ
  pub message_count : ℕ

pub record CasCheckpoint : Type 0 where
  pub cursor : BatchCursor
  pub hotshot_height : ℕ

-- The provider: the head of the chain, the logs of the event between two blocks (both included), and
-- the decoding of a log.
pub record LogScanner : Type 1 where
  pub Log : Type 0
  pub get_block_number : Result L1MonitorError ℕ
  pub get_logs : ℕ → ℕ → Result L1MonitorError (List Log)
  pub decode_log : Log → Result L1MonitorError EspressoCertificateVerified

abbrev pub checkpoint_of : EspressoCertificateVerified → CasCheckpoint
checkpoint_of event = record {
  cursor = record {
    last_batch_delayed_messages_read = event.delayed_message_read;
    next_batch_start_pos = event.message_count;
  };
  hotshot_height = event.hotshot_block;
}

module _ (S : LogScanner) where
  -- What is returned when the last window has no event.
  abbrev pub not_found : ℕ → Result L1MonitorError CasCheckpoint
  not_found max_l1_blocks =
      if ltb 0 max_l1_blocks
      then err (checkpoint_not_found max_l1_blocks)
      else ok record { cursor = default_cursor; hotshot_height = 0 }

  abbrev pub earliest_allowed : ℕ → ℕ → ℕ
  earliest_allowed latest_block max_l1_blocks =
      if ltb 0 max_l1_blocks then latest_block - (max_l1_blocks - 1) else 0

  -- The loop, with the step, the limit and the earliest block, from a block downwards.
  unfoldable pub scan_windows : ℕ → ℕ → ℕ → ℕ → ℕ → Result L1MonitorError CasCheckpoint
  scan_windows step max_l1_blocks earliest zero to_block = err out_of_fuel
  scan_windows step max_l1_blocks earliest (suc fuel) to_block =
      let from_block = max (to_block - step) earliest in
      let rest = scan_windows step max_l1_blocks earliest fuel (from_block - 1) in
      S.get_logs from_block to_block >>= λ logs. elim (last logs) [
        | some log ↦ S.decode_log log >>= λ event. ok (checkpoint_of event)
        | none ↦ if from_block == earliest then not_found max_l1_blocks else rest
      ]

  -- Each round goes down by a block at least, so that there are at most as many as there are blocks.
  unfoldable pub scan_for_latest_checkpoint : ℕ → ℕ → Result L1MonitorError CasCheckpoint
  unfolding scan_windows
  scan_for_latest_checkpoint log_scan_step max_l1_blocks = S.get_block_number >>= λ latest_block.
      scan_windows log_scan_step max_l1_blocks (earliest_allowed latest_block max_l1_blocks)
        (suc latest_block) latest_block

-- The state of the loop of `start`: the last finalized block that was handled, and the index of the
-- last finalized message that was sent.
pub record FinalizedState : Type 0 where
  pub last_finalized_block : ℕ
  pub l1_finalized_msg_idx : ℕ

-- A round of the loop: the number of the finalized block, where the provider answers, and the
-- message count at a block, where it answers.
unfoldable pub poll_finalized : FinalizedState → Option ℕ → (ℕ → Option ℕ) → FinalizedState
poll_finalized s none fetch_message_count = s
poll_finalized s (some finalized_block) fetch_message_count =
    if leb finalized_block s.last_finalized_block
    then s
    else elim (fetch_message_count finalized_block) [
      | none ↦ s
      | some count ↦ record {
        last_finalized_block = finalized_block;
        l1_finalized_msg_idx = count - 1;
      }
    ]
