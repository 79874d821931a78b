-- ===== src/Streamer/Examples.antt =====
-- Concrete runs of the streamer, with a rollup of numbered messages.
use chain_adjacent_service.Prelude.{
  leb, drop, ◌==◌, if◌then◌else◌, length, ℕ, ◌+◌, ◌-◌, ◌≡◌, refl, Bool, true, false, ◌&&◌, ◌||◌,
  Option, none, some, List, [], ◌∷◌, ◌++◌, arith,
}
use chain_adjacent_service.Rollup.{failure, Rollup}
use chain_adjacent_service.Config.{StreamerConfig, default_streamer_config}
use chain_adjacent_service.BtreeMap.{member, partition_point}
use chain_adjacent_service.Streamer.{
  Streamer, Broadcast, find_contiguous_entries_after, try_broadcast_feed_message, seqs,
  filter_messages,
}
use chain_adjacent_service.Streamer.Promote.{Reader, handle_finalization}
use chain_adjacent_service.Streamer.Invariant.{tracked, Inv}
use chain_adjacent_service.Streamer.Filter.{tracked-filter_messages}
use chain_adjacent_service.Streamer.Finalization.{Finalizes, handle_finalization-Finalizes}
use chain_adjacent_service.Streamer.Contiguous.{ConsecutiveFrom}
use chain_adjacent_service.Streamer.Sending.{after_sending, try_broadcast_feed_message_lem}
use chain_adjacent_service.Streamer.Duplicates.Retries.{handle_finalization_duplicate}
use chain_adjacent_service.Streamer.Run.{
  finalized, transactions_received, retry_received, relay_took, Loop, step, here, then_step, start,
}
use chain_adjacent_service.Streamer.Run.Order.{Sends, Reaches-Sends}
use chain_adjacent_service.Streamer.Poll.{Fetched, blocks, not_found, Answers, Poller, poll_rounds}
use chain_adjacent_service.Streamer.Poll.Coverage.{range, Faithful, Polled, poll_rounds-Polled}

pub record TestEntry : Type 0 where
  pub seq : ℕ
  pub height : ℕ

abbrev entry : ℕ → ℕ → TestEntry
entry seq height = record { seq = seq; height = height }

abbrev number_block : ℕ → List ℕ → List TestEntry
number_block height [] = []
number_block height (seq ∷ txs) = entry seq height ∷ number_block height txs

abbrev number_blocks : List (List ℕ) → ℕ → List TestEntry
number_blocks [] height = []
number_blocks (txs ∷ later) height = number_block height txs ++ number_blocks later (height + 1)

abbrev pub test_rollup : Rollup
test_rollup = record {
  Transaction = ℕ;
  Entry = TestEntry;
  BatchMessage = ℕ;
  FeedMessage = ℕ;
  BatchCursor = ℕ;
  default_cursor = 0;
  sequence_number = λ e. e.seq;
  hotshot_height = λ e. e.height;
  parse_batch_data = λ bytes. some bytes;
  convert_entry_to_feed_message = λ e. e.seq;
  parse_hotshot_transactions = number_blocks;
  verify_batch_messages = λ batch queue cursor. failure;
}

abbrev test_config : StreamerConfig
test_config = record default_streamer_config { max_full_queue_entries = 2 }

-- A full queue, and the stub of a later message that was seen at height 12.
abbrev test_streamer : Streamer test_rollup
test_streamer = record {
  queue = entry 4 10 ∷ entry 5 11 ∷ [];
  stubs = (6, 12) ∷ [];
  config = test_config;
  finalized_idx = 3;
  last_broadcast_position = 3;
}

test_streamer-Inv : Inv test_rollup test_streamer
unfolding member
test_streamer-Inv = record {
  queue_sorted = omega arith;
  stubs_sorted = omega arith;
  disjoint = λ k. ground arith;
  capped = omega arith;
}

abbrev new_entries : List TestEntry
new_entries = entry 7 13 ∷ entry 5 14 ∷ entry 0 14 ∷ []

tracked-filter_messages_example :
    tracked test_rollup 7 (filter_messages test_rollup new_entries test_streamer)
    ≡ (tracked test_rollup 7 test_streamer || (leb 0 7 && member 7 (seqs test_rollup new_entries)))
tracked-filter_messages_example =
    tracked-filter_messages test_rollup 7 new_entries test_streamer test_streamer-Inv

-- The blocks of a range: block 12 has message 6.
abbrev test_reader : Reader test_rollup
test_reader start end = if start == 12 then some ((6 ∷ []) ∷ []) else none

handle_finalization-Finalizes_example :
    Finalizes test_rollup 4 test_streamer
      (handle_finalization test_rollup test_reader 4 test_streamer)
handle_finalization-Finalizes_example =
    handle_finalization-Finalizes test_rollup test_reader 4 test_streamer test_streamer-Inv
      (omega arith)

abbrev with_room : Streamer test_rollup
with_room = record test_streamer { queue = entry 5 11 ∷ [] }

with_room-Inv : Inv test_rollup with_room
unfolding member
with_room-Inv = record {
  queue_sorted = omega arith;
  stubs_sorted = omega arith;
  disjoint = λ k. ground arith;
  capped = omega arith;
}

abbrev test_broadcast : Broadcast test_rollup
test_broadcast = record {
  streamer = test_streamer;
  sender = record { closed = false; room = 1; sent = [] };
  retry = record { scheduled = false; timers = 0 };
}

try_broadcast_feed_message_lem_example :
    let run = find_contiguous_entries_after test_rollup test_streamer.queue 3 in
    ConsecutiveFrom 4 (seqs test_rollup run)
    × (member (4 + length run) (seqs test_rollup test_streamer.queue) ≡ false)
    × (try_broadcast_feed_message test_rollup test_broadcast
        ≡ after_sending test_rollup run test_broadcast)
try_broadcast_feed_message_lem_example =
    try_broadcast_feed_message_lem test_rollup test_broadcast (omega arith) (omega arith)

-- Block 12 has message 6, and block 13 has it once more.
-- Message 6 is in the block of height 12 and once more in that of height 13, with message 8.
abbrev resubmitting : ℕ → List ℕ
resubmitting h = if h == 13 then 8 ∷ 6 ∷ [] else 6 ∷ []

abbrev lawful_reader : Reader test_rollup
lawful_reader start end = some (range ℕ resubmitting start (end - start))

abbrev with_stubs : Streamer test_rollup
with_stubs = record with_room { config = default_streamer_config; stubs = (6, 12) ∷ (8, 13) ∷ [] }

no_more : member 6 [] ≡ false
unfolding member
no_more = refl

handle_finalization_duplicate_example :
    ((handle_finalization test_rollup lawful_reader 4 with_stubs).stubs ≡ (6, 12) ∷ (8, 13) ∷ [])
    × ((handle_finalization test_rollup lawful_reader 4 with_stubs).queue
        ≡ drop (partition_point (λ x. leb x.seq 4) with_stubs.queue) with_stubs.queue)
handle_finalization_duplicate_example =
    handle_finalization_duplicate test_rollup resubmitting lawful_reader 4 with_stubs 12 13 8
      (entry 6 12 ∷ entry 8 13 ∷ []) (entry 6 13) [] (λ from to. refl) refl (omega arith)
      (omega arith) (omega arith) (omega arith) (omega arith) (omega arith) (omega arith)
      (omega arith) refl no_more (λ h. absurd (ground (arith, h)))

abbrev started : Loop test_rollup
started = record { broadcast = test_broadcast; replies = [] }

-- Blocks come in, the parent chain finalizes message 4, and the relay takes a message.
abbrev test_run : Loop test_rollup
test_run = step test_rollup retry_received (
    step test_rollup (relay_took 1) (
      step test_rollup (finalized test_reader 4)
        (step test_rollup (transactions_received ((7 ∷ []) ∷ []) 13) started)))

Reaches-Sends_example :
    Inv test_rollup test_run.broadcast.streamer
    × Sends test_rollup test_broadcast test_run.broadcast
Reaches-Sends_example = Reaches-Sends test_rollup started test_run test_streamer-Inv (
    then_step retry_received tt (
      then_step (relay_took 1) tt (
        then_step (finalized test_reader 4) (omega arith)
          (then_step (transactions_received ((7 ∷ []) ∷ []) 13) tt here))))

-- A chain whose block of height h holds the number h.
abbrev number_chain : ℕ → List ℕ
number_chain h = h ∷ []

abbrev answers : Option ℕ → Bool → Answers ℕ
answers height up = record {
  block_height = height;
  namespace_transactions_in_range =
      λ from to. if up then blocks (range ℕ number_chain from (to - from)) else not_found;
  open_channel = true;
}

abbrev three_rounds : List (Answers ℕ)
three_rounds = answers (some 205) true ∷ answers none true ∷ answers (some 205) false ∷ []

abbrev poller : Poller ℕ
poller = record { from_block = 7; backoff_ms = 1000; delivered = []; stopped = false }

three_rounds-Faithful : Faithful ℕ number_chain three_rounds
three_rounds-Faithful = (
  λ from to bs e. answered e,
  (λ from to bs e. answered e, (λ from to bs e. absurd (ground arith), tt)),
)
  where
    answered : {a b : List (List ℕ)} → Path (Fetched ℕ) (blocks a) (blocks b) → b ≡ a
    answered e = ground arith

poll_rounds-Polled_example :
    Polled ℕ number_chain test_config 7 (poll_rounds ℕ test_config three_rounds poller)
poll_rounds-Polled_example =
    poll_rounds-Polled ℕ number_chain test_config 7 three_rounds poller three_rounds-Faithful
      (record { covered = refl; fits = omega arith; patient = omega arith })
