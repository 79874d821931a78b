-- ===== src/Startup.antt =====
-- main.rs and rollups/nitro/nitro.rs: the positions that `run` starts from.
pub mod Resume
pub mod Examples
use chain_adjacent_service.Prelude.{if◌then◌else◌, Result, ok, ◌>>=◌, ℕ, Bool, Option, none, some}
use chain_adjacent_service.Config.{StreamerConfig}
use chain_adjacent_service.Nitro.{BatchCursor}
use chain_adjacent_service.L1Monitor.{L1MonitorError, LogScanner, scan_for_latest_checkpoint}

-- The settings that the start reads: those of the streamer, of the feed and of the search on L1.
pub record ServiceConfig : Type 0 where
  pub streamer : StreamerConfig
  pub current_message_count : ℕ
  pub log_scan_step : ℕ
  pub max_l1_blocks_to_scan_on_startup : ℕ
  pub is_fresh_deployment : Bool

abbrev pub with_hotshot_height : Option ℕ → StreamerConfig → StreamerConfig
with_hotshot_height none config = config
with_hotshot_height (some height) config = record config { starting_hotshot_height = height }

unfoldable pub resolve_config_with_checkpoint :
    ServiceConfig → BatchCursor → Option ℕ → ServiceConfig
resolve_config_with_checkpoint config batch_cursor starting_hotshot_height = record config {
  current_message_count = batch_cursor.next_batch_start_pos;
  streamer = record (with_hotshot_height starting_hotshot_height config.streamer) {
    starting_pos = batch_cursor.next_batch_start_pos;
  };
}

module _ (S : LogScanner) where
  -- The position and the HotShot height to start from. On a fresh deployment the position is read of the
  -- contract, which may fail.
  abbrev pub start_positions :
      ServiceConfig
      → Result L1MonitorError BatchCursor
      → Result L1MonitorError (BatchCursor × Option ℕ)
  start_positions config latest_cursor =
      if config.is_fresh_deployment
      then (latest_cursor >>= λ batch_cursor. ok (batch_cursor, none))
      else (scan_for_latest_checkpoint S config.log_scan_step
            config.max_l1_blocks_to_scan_on_startup
          >>= λ checkpoint. ok (checkpoint.cursor, some checkpoint.hotshot_height))

  -- The settings with which the tasks of `run` are started.
  unfoldable pub resolve_start :
      ServiceConfig → Result L1MonitorError BatchCursor → Result L1MonitorError ServiceConfig
  unfolding resolve_config_with_checkpoint
  resolve_start config latest_cursor = start_positions config latest_cursor >>= λ positions.
      ok (resolve_config_with_checkpoint config positions.0 positions.1)
