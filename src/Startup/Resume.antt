-- ===== src/Startup/Resume.antt =====
-- main.rs: a service that is not a fresh deployment resumes from the last certificate on L1.
use chain_adjacent_service.Prelude.{last, Result, ok, ℕ, ◌≤◌, ◌≡◌, refl, true, false, some, List}
use chain_adjacent_service.Prelude.Words.{IsU64}
use chain_adjacent_service.Rollup.{Rollup}
use chain_adjacent_service.Nitro.{BatchCursor}
use chain_adjacent_service.L1Monitor.{
  L1MonitorError, EspressoCertificateVerified, LogScanner, checkpoint_of, earliest_allowed,
}
use chain_adjacent_service.L1Monitor.Scan.{logs_within, Ordered, Provides}
use chain_adjacent_service.L1Monitor.Checkpoint.{scan_for_latest_checkpoint_lem}
use chain_adjacent_service.Streamer.Invariant.{tracked}
use chain_adjacent_service.Streamer.Run.{Loop, Reaches, start}
use chain_adjacent_service.Streamer.Run.Starting.{Reaches-later}
use chain_adjacent_service.Startup.{ServiceConfig, resolve_config_with_checkpoint, resolve_start}

-- The settings for an event: the checkpoint of the event, filled in.
abbrev pub resumed : ServiceConfig → EspressoCertificateVerified → ServiceConfig
resumed config event =
    resolve_config_with_checkpoint config (checkpoint_of event).cursor (some event.hotshot_block)

module _ (S : LogScanner) (block : S.Log → ℕ) where
  resolve_start-resumed :
      (chain : List S.Log) (latest : ℕ) (log : S.Log) (event : EspressoCertificateVerified)
      (config : ServiceConfig) (latest_cursor : Result L1MonitorError BatchCursor)
      → Ordered S block 0 chain
      → Provides S block chain
      → S.get_block_number ≡ ok latest
      → last (
          logs_within S block
            (earliest_allowed S latest config.max_l1_blocks_to_scan_on_startup)
            latest
            chain)
        ≡ some log
      → S.decode_log log ≡ ok event
      → config.is_fresh_deployment ≡ false
      → resolve_start S config latest_cursor ≡ ok (resumed config event)
  unfolding resolve_start
  resolve_start-resumed chain latest log event config latest_cursor ordered provides head found
        decoded old =
      let found_lem =
        scan_for_latest_checkpoint_lem S block chain config.log_scan_step
          config.max_l1_blocks_to_scan_on_startup latest ordered provides head in
      simp (old, found_lem, found, decoded)

  -- With a provider that returns the logs of a range in the order of the chain, a service that is not a
  -- fresh deployment starts from the last certificate that was verified on L1 within the blocks that are
  -- searched, if there is one and it can be decoded: the HotShot height and the message count of the
  -- feed are those of the event, and in any run of the streamer from these settings each 64-bit sequence
  -- number that is tracked is at least that message count.
  pub resolve_start-Reaches :
      (R : Rollup) (chain : List S.Log) (latest : ℕ) (log : S.Log)
      (event : EspressoCertificateVerified) (config : ServiceConfig)
      (latest_cursor : Result L1MonitorError BatchCursor) (finalized_idx capacity : ℕ) (t : Loop R)
      (k : ℕ)
      → Ordered S block 0 chain
      → Provides S block chain
      → S.get_block_number ≡ ok latest
      → last (
          logs_within S block
            (earliest_allowed S latest config.max_l1_blocks_to_scan_on_startup)
            latest
            chain)
        ≡ some log
      → S.decode_log log ≡ ok event
      → config.is_fresh_deployment ≡ false
      → Reaches R (start R (resumed config event).streamer finalized_idx capacity) t
      → IsU64 k
      → tracked R k t.broadcast.streamer ≡ true
      → (resolve_start S config latest_cursor ≡ ok (resumed config event))
        × ((resumed config event).streamer.starting_hotshot_height ≡ event.hotshot_block)
        × ((resumed config event).current_message_count ≡ event.message_count)
        × (event.message_count ≤ k)
  unfolding resolve_config_with_checkpoint
  resolve_start-Reaches R chain latest log event config latest_cursor finalized_idx capacity t k
        ordered provides head found decoded old r h e =
      (
        resolve_start-resumed chain latest log event config latest_cursor ordered provides head
            found decoded old,
        refl,
        refl,
        Reaches-later R (resumed config event).streamer finalized_idx capacity t k r h e,
      )
