-- ===== src/Nitro/Verify.antt =====
-- rollups/nitro/nitro.rs: `verify_batch_messages`, which compares the messages of a batch with the
-- entries of the streamer's queue.
pub mod Correct
pub mod Matching
use mathlib.Core.Option
use chain_adjacent_service.Prelude.{
  ltb, ◌==◌, if◌then◌else◌, length, take, drop, ℕ, suc, ◌+◌, ◌-◌, min, true, Option, none, some,
  List, [], ◌∷◌, map,
}
use chain_adjacent_service.Prelude.Words.{u64, bytes_eq}
use chain_adjacent_service.Rollup.{VerificationResult, failure}
use chain_adjacent_service.Nitro.{
  BatchMessage, l2_msg, delayed_msg, BatchCursor, NitroRollupQueueEntry, sequence_number,
}

-- `slice::binary_search_by_key` on items in the order of distinct keys.
unfoldable pub binary_search_by_key {ℓ} : {A : Type ℓ} → ℕ → (A → ℕ) → List A → Option ℕ
binary_search_by_key k f [] = none
binary_search_by_key k f (x ∷ xs) =
    if f x == k
    then some 0
    else (if ltb k (f x) then none else Option.map suc (binary_search_by_key k f xs))

-- The body of the loop over the batch, on one message and the entry at its index: the new running
-- count of delayed messages, or `none` where the code returns a failure.
unfoldable pub check_message : BatchMessage → NitroRollupQueueEntry → ℕ → Option ℕ
check_message (l2_msg content) entry expected = elim entry.feed_message.message.message [
  | none ↦ none
  | some msg ↦
      if bytes_eq content msg.l2msg
      then (if entry.feed_message.message.delayed_messages_read == expected
          then some expected
          else none)
      else none
]
check_message delayed_msg entry expected =
    if entry.feed_message.message.delayed_messages_read == u64 (expected + 1)
    then some (u64 (expected + 1))
    else none

-- An index past the queue, which the length test excludes, would be a panic.
unfoldable pub check_messages : List BatchMessage → List NitroRollupQueueEntry → ℕ → Option ℕ
unfolding check_message
check_messages [] queue expected = some expected
check_messages (msg ∷ msgs) [] expected = none
check_messages (msg ∷ msgs) (entry ∷ queue) expected = elim (check_message msg entry expected) [
  | none ↦ none
  | some next ↦ check_messages msgs queue next
]

-- `iter().map(hotshot_height).min().unwrap_or(0)`
unfoldable pub min_height : List NitroRollupQueueEntry → ℕ
min_height [] = 0
min_height (e ∷ []) = e.hotshot_height
min_height (e ∷ x ∷ xs) = min e.hotshot_height (min_height (x ∷ xs))

-- The result for a batch that matches the queue from its start position on. The subtraction comes
-- last and a batch has a message, so that `-` is exact.
abbrev pub verified : List BatchMessage → List NitroRollupQueueEntry → ℕ → ℕ → VerificationResult
verified batch_messages queue start delayed = record {
  success = true;
  start_message_position = start;
  end_message_position = u64 (start + length batch_messages - 1);
  start_espresso_block = min_height (take (length batch_messages) queue);
  after_delayed_messages_read = delayed;
  min_espresso_block_still_in_queue = min_height (drop (length batch_messages) queue);
}

-- The part after the loop: an empty batch is a failure.
unfoldable pub summarize :
    List BatchMessage → List NitroRollupQueueEntry → ℕ → ℕ → VerificationResult
unfolding min_height
summarize [] queue start delayed = failure
summarize (m ∷ ms) queue start delayed = verified (m ∷ ms) queue start delayed

-- `verify_batch_messages` from the position found on.
unfoldable pub verify_from :
    List BatchMessage → List NitroRollupQueueEntry → BatchCursor → VerificationResult
unfolding check_messages summarize
verify_from batch_messages queue context =
    if ltb (length queue) (length batch_messages)
    then failure
    else elim (check_messages batch_messages queue context.last_batch_delayed_messages_read) [
      | none ↦ failure
      | some expected ↦ summarize batch_messages queue context.next_batch_start_pos expected
    ]

unfoldable pub verify_batch_messages :
    List BatchMessage → List NitroRollupQueueEntry → BatchCursor → VerificationResult
unfolding verify_from binary_search_by_key
verify_batch_messages batch_messages streamer_queue context =
    elim (binary_search_by_key context.next_batch_start_pos sequence_number streamer_queue) [
      | none ↦ failure
      | some pos ↦ verify_from batch_messages (drop pos streamer_queue) context
    ]
