-- ===== src/Streamer.antt =====
-- streamer/streamer.rs: the queue of entries that Espresso has finalized, with stubs for its
-- overflow, and what moves it on. The finalization channel and the reader are arguments.
pub mod Examples
pub mod Poll
pub mod Run
pub mod Duplicates
pub mod Contiguous
pub mod Promote
pub mod Queue
pub mod Invariant
pub mod Filter
pub mod Promotion
pub mod Finalization
pub mod Sending
use chain_adjacent_service.Prelude.{
  ltb, leb, ◌==◌, if◌then◌else◌, length, get_elem?, drop, ℕ, ◌+◌, ◌-◌, Bool, true, false, ◌||◌,
  Option, none, some, List, [], ◌∷◌, ◌++◌,
}
use chain_adjacent_service.Prelude.Words.{u64}
use chain_adjacent_service.Config.{StreamerConfig}
use chain_adjacent_service.Rollup.{Rollup}
use chain_adjacent_service.BtreeMap.{
  member, partition_point, insert_at, pop_from, BtreeMap, keys, insert,
}

pub record Streamer (R : Rollup) : Type 0 where
  pub queue : List R.Entry
  pub stubs : BtreeMap ℕ
  pub config : StreamerConfig
  pub finalized_idx : ℕ
  pub last_broadcast_position : ℕ

-- The bounded channel to the feed relay: free slots, and what was sent so far.
pub record Sender (M : Type 0) : Type 0 where
  pub closed : Bool
  pub room : ℕ
  pub sent : List M

pub data TrySend (M : Type 0) : Type 0 where
  delivered : Sender M → TrySend M
  full : TrySend M
  disconnected : TrySend M

abbrev pub try_send : {M : Type 0} → M → Sender M → TrySend M
try_send m s =
    if s.closed
    then disconnected
    else (if s.room == 0
        then full
        else delivered (record s { room = s.room - 1; sent = s.sent ++ m ∷ [] }))

-- `timers` counts the retry signals that were asked for.
pub record BroadcastRetry : Type 0 where
  pub scheduled : Bool
  pub timers : ℕ

abbrev pub schedule : BroadcastRetry → BroadcastRetry
schedule r = if r.scheduled then r else record { scheduled = true; timers = r.timers + 1 }

-- What a broadcast works on.
pub record Broadcast (R : Rollup) : Type 0 where
  pub streamer : Streamer R
  pub sender : Sender R.FeedMessage
  pub retry : BroadcastRetry

abbrev pub hotshot_range_limit : ℕ
hotshot_range_limit = 100

abbrev pub u64_max : ℕ
u64_max = 18446744073709551615

module _ (R : Rollup) where
  open R use {
    Entry, Transaction, FeedMessage, sequence_number, hotshot_height, convert_entry_to_feed_message,
    parse_hotshot_transactions,
  }

  pub new : StreamerConfig → Streamer R
  new config = record {
    queue = [];
    stubs = [];
    config = config;
    finalized_idx = 0;
    last_broadcast_position = 0;
  }

  unfoldable pub contiguous : ℕ → ℕ → List Entry → List Entry
  contiguous last_pos idx [] = []
  contiguous last_pos idx (e ∷ es) =
      if sequence_number e == u64 (last_pos + idx + 1)
      then e ∷ contiguous last_pos (idx + 1) es
      else []

  pub find_contiguous_entries_after : List Entry → ℕ → List Entry
  unfolding contiguous
  find_contiguous_entries_after queue last_pos =
      contiguous last_pos 0
        (drop (partition_point (λ e. leb (sequence_number e) last_pos) queue) queue)

  -- The `for` loop of `try_broadcast_feed_message`.
  pub broadcast_entries : List Entry → Broadcast R → Broadcast R
  broadcast_entries [] b = b
  broadcast_entries (e ∷ es) b = elim (try_send (convert_entry_to_feed_message e) b.sender) [
    | delivered sender ↦ broadcast_entries es (record b {
      sender = sender;
      streamer = record b.streamer { last_broadcast_position = sequence_number e };
    })
    | full ↦ record b { retry = schedule b.retry }
    | disconnected ↦ b
  ]

  pub try_broadcast_feed_message : Broadcast R → Broadcast R
  unfolding find_contiguous_entries_after broadcast_entries
  try_broadcast_feed_message b =
      broadcast_entries
        (find_contiguous_entries_after b.streamer.queue b.streamer.last_broadcast_position) b

  -- The first item of a queue that an insertion has made non-empty goes in; the tail goes to stubs.
  pub evict : Entry → List Entry → Streamer R → Streamer R
  evict x xs s =
      let (front, evicted) = pop_from x xs in
      record s {
        queue = front;
        stubs = insert (sequence_number evicted) (hotshot_height evicted) s.stubs;
      }

  -- `if self.queue.len() > max { … }` on the queue after an insertion.
  pub settle : List Entry → Streamer R → Streamer R
  unfolding evict
  settle [] s = record s { queue = [] }
  settle (x ∷ xs) s =
      if ltb s.config.max_full_queue_entries (length (x ∷ xs))
      then evict x xs s
      else record s { queue = x ∷ xs }

  abbrev pub seqs : List Entry → List ℕ
  seqs [] = []
  seqs (e ∷ es) = sequence_number e ∷ seqs es

  -- The entry goes in at the partition point of its sequence number.
  unfoldable pub insert_sorted : ℕ → Entry → List Entry → List Entry
  insert_sorted seq e queue =
      insert_at (partition_point (λ x. ltb (sequence_number x) seq) queue) e queue

  -- `pos < queue.len() && queue[pos].sequence_number() == seq` at the partition point.
  unfoldable pub exists_at : ℕ → Option Entry → Bool
  exists_at seq none = false
  exists_at seq (some e) = sequence_number e == seq

  -- One round of `filter_messages`.
  pub filter_message : Entry → Streamer R → Streamer R
  unfolding settle insert_sorted exists_at
  filter_message e s =
      let seq = sequence_number e in
      let pos = partition_point (λ x. ltb (sequence_number x) seq) s.queue in
      if ltb seq s.config.starting_pos
      then s
      else (if exists_at seq (get_elem? s.queue pos) || member seq (keys s.stubs)
          then s
          else settle (insert_sorted seq e s.queue) s)

  unfoldable pub filter_messages : List Entry → Streamer R → Streamer R
  unfolding filter_message
  filter_messages [] s = s
  filter_messages (e ∷ es) s = filter_messages es (filter_message e s)
