-- ===== src/Startup/Examples.antt =====
-- A restart from the certificate at block 20, and a run with the messages 8 and 9 after it.
use chain_adjacent_service.Prelude.{ok, err, ◌≤◌, ◌≡◌, refl, true, false, [], ◌∷◌, arith}
use chain_adjacent_service.Config.{default_streamer_config}
use chain_adjacent_service.BtreeMap.{member, partition_point, insert_at}
use chain_adjacent_service.L1Monitor.{contract, EspressoCertificateVerified}
use chain_adjacent_service.L1Monitor.Examples.{TestLog, chain, test_scanner}
use chain_adjacent_service.Streamer.{filter_messages}
use chain_adjacent_service.Streamer.Examples.{test_rollup}
use chain_adjacent_service.Streamer.Invariant.{tracked}
use chain_adjacent_service.Streamer.Run.{
  transactions_received, handle_hotshot_transactions, Loop, step, here, then_step, start,
}
use chain_adjacent_service.Startup.{ServiceConfig, resolve_config_with_checkpoint, resolve_start}
use chain_adjacent_service.Startup.Resume.{resumed, resolve_start-Reaches}

abbrev stopped : ServiceConfig
stopped = record {
  streamer = default_streamer_config;
  current_message_count = 0;
  log_scan_step = 10;
  max_l1_blocks_to_scan_on_startup = 0;
  is_fresh_deployment = false;
}

abbrev last_event : EspressoCertificateVerified
last_event = record { hotshot_block = 90; delayed_message_read = 2; message_count = 9 }

abbrev last_log : TestLog
last_log = record { block = 20; event = last_event }

abbrev resumed_loop : Loop test_rollup
resumed_loop =
    step test_rollup (transactions_received ((8 ∷ 9 ∷ []) ∷ []) 91)
      (start test_rollup (resumed stopped last_event).streamer 0 4)

test_resumed : tracked test_rollup 9 resumed_loop.broadcast.streamer ≡ true
unfolding step start handle_hotshot_transactions filter_messages resolve_config_with_checkpoint
    member partition_point insert_at
test_resumed = refl

resolve_start-Reaches_example :
    (resolve_start test_scanner stopped (err contract) ≡ ok (resumed stopped last_event))
    × ((resumed stopped last_event).streamer.starting_hotshot_height ≡ 90)
    × ((resumed stopped last_event).current_message_count ≡ 9)
    × (9 ≤ 9)
resolve_start-Reaches_example =
    resolve_start-Reaches test_scanner (λ l. l.block) test_rollup chain 100 last_log last_event
      stopped (err contract) 0 4 resumed_loop 9 (omega arith) (λ from to. refl) refl refl refl refl
      (then_step (transactions_received ((8 ∷ 9 ∷ []) ∷ []) 91) tt here) (omega arith) test_resumed
