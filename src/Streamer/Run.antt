-- ===== src/Streamer/Run.antt =====
-- streamer/streamer.rs: the loop of `run`. Each arm of its `select!` is an event, and so is what the
-- feed relay does to the channel between two of them. An arm that only logs is no event, and the
-- end of the poller ends the run.
use chain_adjacent_service.Prelude.{ℕ, ◌+◌, true, false, Option, none, some, List, [], ◌∷◌, ◌++◌}
use chain_adjacent_service.Prelude.Words.{Bytes, IsU64}
use chain_adjacent_service.Rollup.{VerificationResult, failure, Rollup}
use chain_adjacent_service.Config.{StreamerConfig}
use chain_adjacent_service.Streamer.{
  Streamer, Broadcast, new, try_broadcast_feed_message, filter_messages,
}
use chain_adjacent_service.Streamer.Promote.{Reader, handle_finalization}
pub mod Order
pub mod Provenance
pub mod Starting

module _ (R : Rollup) where
  open R use {
    Transaction, BatchCursor, default_cursor, parse_batch_data, parse_hotshot_transactions,
    verify_batch_messages,
  }

  -- The reader of a finalization is what the client answers while stubs are promoted; the cursor of a
  -- verification is what the fetcher answers, where there is one and it does.
  pub data Event : Type 0 where
    finalized : Reader R → ℕ → Event
    batch_received : Bytes → Option BatchCursor → Event
    transactions_received : List (List Transaction) → ℕ → Event
    retry_received : Event
    relay_took : ℕ → Event
    relay_closed : Event

  -- The state of the loop, with the replies to the verification requests.
  pub record Loop : Type 0 where
    pub broadcast : Broadcast R
    pub replies : List VerificationResult

  unfoldable pub handle_hotshot_transactions :
      List (List Transaction) → ℕ → Broadcast R → Broadcast R
  unfolding filter_messages try_broadcast_feed_message
  handle_hotshot_transactions transactions height b = try_broadcast_feed_message R (record b {
    streamer = filter_messages R (parse_hotshot_transactions transactions height) b.streamer;
  })

  abbrev pub or_default : Option BatchCursor → BatchCursor
  or_default none = default_cursor
  or_default (some c) = c

  -- The reply to a verification request.
  unfoldable pub verify_request : Bytes → Option BatchCursor → Streamer R → VerificationResult
  verify_request batch_data fetched s = elim (parse_batch_data batch_data) [
    | none ↦ failure
    | some entries ↦ verify_batch_messages entries s.queue (or_default fetched)
  ]

  unfoldable pub step : Event → Loop → Loop
  unfolding handle_finalization handle_hotshot_transactions try_broadcast_feed_message
      verify_request
  step (finalized reader idx) s = record s {
    broadcast = record s.broadcast {
      streamer = handle_finalization R reader idx s.broadcast.streamer;
    };
  }
  step (batch_received batch_data fetched) s = record s {
    replies = s.replies ++ verify_request batch_data fetched s.broadcast.streamer ∷ [];
  }
  step (transactions_received transactions height) s = record s {
    broadcast = handle_hotshot_transactions transactions height s.broadcast;
  }
  step retry_received s = record s {
    broadcast =
        try_broadcast_feed_message R
          (record s.broadcast { retry = record s.broadcast.retry { scheduled = false } });
  }
  step (relay_took n) s = record s {
    broadcast = record s.broadcast {
      sender = record s.broadcast.sender { room = s.broadcast.sender.room + n };
    };
  }
  step relay_closed s = record s {
    broadcast = record s.broadcast { sender = record s.broadcast.sender { closed = true } };
  }

  -- A finalized index is a `u64`.
  abbrev pub Admissible : Event → Type 0
  Admissible (finalized reader idx) = IsU64 idx
  Admissible (batch_received batch_data fetched) = Unit {0}
  Admissible (transactions_received transactions height) = Unit {0}
  Admissible retry_received = Unit {0}
  Admissible (relay_took n) = Unit {0}
  Admissible relay_closed = Unit {0}

  -- Any events, in any order.
  pub data Reaches (s : Loop) : Loop → Type 0 where
    here : Reaches s s
    then_step : {t : Loop} (e : Event) → Admissible e → Reaches s t → Reaches s (step e t)

  -- The state that `run` starts with, with the channel it is given.
  unfoldable pub start : StreamerConfig → ℕ → ℕ → Loop
  unfolding new
  start config finalized_idx capacity = record {
    broadcast = record {
      streamer = record (new R config) { finalized_idx = finalized_idx };
      sender = record { closed = false; room = capacity; sent = [] };
      retry = record { scheduled = false; timers = 0 };
    };
    replies = [];
  }
