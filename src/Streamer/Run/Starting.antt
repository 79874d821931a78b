-- ===== src/Streamer/Run/Starting.antt =====
-- streamer/streamer.rs: the starting position of the settings, in any run of the loop.
use chain_adjacent_service.Prelude.{ℕ, List, ◌≤◌, ◌≡◌, refl, sym, ap, ◌∙◌, true, false, arith}
use chain_adjacent_service.Prelude.Words.{IsU64}
use chain_adjacent_service.Rollup.{Rollup}
use chain_adjacent_service.Config.{StreamerConfig}
use chain_adjacent_service.BtreeMap.{member}
use chain_adjacent_service.Streamer.{
  Streamer, Broadcast, new, filter_messages, try_broadcast_feed_message,
}
use chain_adjacent_service.Streamer.Promote.{Reader, handle_finalization}
use chain_adjacent_service.Streamer.Invariant.{tracked, Inv}
use chain_adjacent_service.Streamer.Filter.{
  filter_messages-Keeps, filter_messages-Inv, tracked-filter_messages,
}
use chain_adjacent_service.Streamer.Finalization.{handle_finalization-Finalizes}
use chain_adjacent_service.Streamer.Run.{
  Event, finalized, batch_received, transactions_received, retry_received, relay_took, relay_closed,
  Loop, handle_hotshot_transactions, step, Admissible, Reaches, here, then_step, start,
}
use chain_adjacent_service.Streamer.Run.Order.{Same, try_broadcast-Sends, kept-Inv}

module _ (R : Rollup) (position : ℕ) where
  -- The settings say the position, and no message before it is tracked.
  record Starts (s : Streamer R) : Type 0 where
    pub inv : Inv R s
    pub config : s.config.starting_pos ≡ position
    pub later : (k : ℕ) → IsU64 k → tracked R k s ≡ true → position ≤ k

  tracked-Same :
      (k : ℕ) (s t : Broadcast R) → Same R s t → tracked R k t.streamer ≡ tracked R k s.streamer
  tracked-Same k s t (q, z, c) = rw (q, z) refl

  broadcast-Starts :
      (b : Broadcast R) → Starts b.streamer → Starts (try_broadcast_feed_message R b).streamer
  broadcast-Starts b v =
      let same = (try_broadcast-Sends R b v.inv.queue_sorted).1 in
      record {
        inv = kept-Inv R b (try_broadcast_feed_message R b) same v.inv;
        config = ap (λ c. c.starting_pos) same.2 ∙ v.config;
        later =
            λ k h t. v.later k h (sym (tracked-Same k b (try_broadcast_feed_message R b) same) ∙ t);
      }

  filter_messages-Starts :
      (es : List R.Entry) (s : Streamer R) → Starts s → Starts (filter_messages R es s)
  filter_messages-Starts es s v = record {
    inv = filter_messages-Inv R es s v.inv;
    config = ground (arith, filter_messages-Keeps R es s, v.config);
    later =
        λ k h t. ground (arith, tracked-filter_messages R k es s v.inv, v.config, v.later k h, t);
  }

  handle_finalization-Starts :
      (reader : Reader R) (idx : ℕ) (s : Streamer R)
      → IsU64 idx
      → Starts s
      → Starts (handle_finalization R reader idx s)
  handle_finalization-Starts reader idx s a v =
      let f = handle_finalization-Finalizes R reader idx s v.inv a in
      record {
        inv = f.inv;
        config = ap (λ c. c.starting_pos) f.config ∙ v.config;
        later = λ k h t. ground (arith, f.kept k h, v.later k h, t);
      }

  step-Starts :
      (event : Event R) (s : Loop R)
      → Admissible R event
      → Starts s.broadcast.streamer
      → Starts (step R event s).broadcast.streamer
  unfolding step handle_hotshot_transactions
  step-Starts (finalized reader idx) s a v =
      handle_finalization-Starts reader idx s.broadcast.streamer a v
  step-Starts (batch_received batch_data fetched) s a v = v
  step-Starts (transactions_received transactions height) s a v =
      let es = R.parse_hotshot_transactions transactions height in
      broadcast-Starts (record s.broadcast { streamer = filter_messages R es s.broadcast.streamer })
        (filter_messages-Starts es s.broadcast.streamer v)
  step-Starts retry_received s a v =
      broadcast-Starts
        (record s.broadcast { retry = record s.broadcast.retry { scheduled = false } }) v
  step-Starts (relay_took n) s a v = v
  step-Starts relay_closed s a v = v

module _ (R : Rollup) where
  start-Starts :
      (config : StreamerConfig) (finalized_idx capacity : ℕ)
      → Starts R config.starting_pos (start R config finalized_idx capacity).broadcast.streamer
  unfolding start new member
  start-Starts config finalized_idx capacity = record {
    inv = record {
      queue_sorted = tt;
      stubs_sorted = tt;
      disjoint = λ k. refl;
      capped = omega arith;
    };
    config = refl;
    later = λ k h t. ground arith;
  }

  Reaches-Starts :
      (config : StreamerConfig) (finalized_idx capacity : ℕ) (t : Loop R)
      → Reaches R (start R config finalized_idx capacity) t
      → Starts R config.starting_pos t.broadcast.streamer
  Reaches-Starts config finalized_idx capacity t here = start-Starts config finalized_idx capacity
  Reaches-Starts config finalized_idx capacity t (then_step {t = u} event admissible r) =
      step-Starts R config.starting_pos event u admissible
        (Reaches-Starts config finalized_idx capacity u r)

  -- In any run of the loop no message before the starting position is tracked.
  pub Reaches-later :
      (config : StreamerConfig) (finalized_idx capacity : ℕ) (t : Loop R) (k : ℕ)
      → Reaches R (start R config finalized_idx capacity) t
      → IsU64 k
      → tracked R k t.broadcast.streamer ≡ true
      → config.starting_pos ≤ k
  Reaches-later config finalized_idx capacity t k r h e =
      (Reaches-Starts config finalized_idx capacity t r).later k h e
