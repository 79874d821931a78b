-- ===== src/Streamer/Duplicates/Retries.antt =====
-- streamer/streamer.rs: a message that was sent twice keeps `handle_finalization` from promoting stubs.
use chain_adjacent_service.Prelude.{
  ltb, leb, if◌then◌else◌, drop, sym, length, ◌==◌, ℕ, ◌+◌, ◌-◌, ◌≤◌, ◌<◌, min, ap, ◌≢◌, ◌≡◌, refl,
  ◌∙◌, true, false, some, List, [], ◌∷◌, ◌++◌, map, arith,
}
use chain_adjacent_service.Rollup.{Rollup}
use chain_adjacent_service.BtreeMap.{member, BtreeMap, keys, split_off, partition_point}
use chain_adjacent_service.Prelude.Words.{u64, IsU64}
use chain_adjacent_service.Streamer.{Streamer, hotshot_range_limit, u64_max}
use chain_adjacent_service.Streamer.Queue.{length-drop_finalized}
use chain_adjacent_service.Streamer.Poll.Coverage.{range}
use chain_adjacent_service.Streamer.Promote.{
  set_insert, heights_of, Reader, collect, fetch_window, fetch_heights, fetch_all, promote_chosen,
  promote_stubs, prune, handle_finalization,
}
use chain_adjacent_service.Streamer.Duplicates.{promote_chosen_duplicate}

module _ (R : Rollup) where
  open R use {Entry, Transaction, sequence_number, hotshot_height, parse_hotshot_transactions}

  heights_two :
      (a b height later : ℕ)
      → height < later
      → heights_of ((a, height) ∷ (b, later) ∷ []) ≡ height ∷ later ∷ []
  unfolding heights_of set_insert
  heights_two a b height later h = ground arith

  fetch_two :
      (reader : Reader R) (expected : List ℕ) (height later : ℕ) (blocks : List (List Transaction))
      → (ltb (later - height) hotshot_range_limit) ≡ true
      → u64 (later + 1) ≡ later + 1
      → reader height (later + 1) ≡ some blocks
      → fetch_all R reader expected (height ∷ later ∷ [])
        ≡ some (collect R expected (parse_hotshot_transactions blocks height) [])
  unfolding fetch_all fetch_heights fetch_window
  fetch_two reader expected height later blocks near fits read =
      rw (near, fits, read, fetch_all, fetch_heights, fetch_window) refl

  promote_both :
      (reader : Reader R) (a b : ℕ × ℕ) (s : Streamer R)
      → s.stubs ≡ a ∷ b ∷ []
      → length s.queue + 2 ≤ s.config.max_full_queue_entries
      → promote_stubs R reader s ≡ promote_chosen R reader (a ∷ b ∷ []) s
  unfolding promote_stubs
  promote_both reader a b s stubs room =
      let free : (s.config.max_full_queue_entries - length s.queue == 0) ≡ false = ground arith in
      let two : min (s.config.max_full_queue_entries - length s.queue) 2 ≡ 2 =
        omega (arith, room) in
      rw (free, stubs, two) refl

  -- A reader gives the blocks of the chain, one for each height of the range. Where two stubs are left,
  -- with room for both, the last copy of the message of the first stops `promote_stubs`.
  promote_stubs_duplicate :
      (chain : ℕ → List Transaction) (reader : Reader R) (s : Streamer R)
      (height later later_seq : ℕ) (front : List Entry) (e : Entry) (back : List Entry)
      → ((from to : ℕ) → reader from to ≡ some (range Transaction chain from (to - from)))
      → s.stubs ≡ (sequence_number e, height) ∷ (later_seq, later) ∷ []
      → length s.queue + 2 ≤ s.config.max_full_queue_entries
      → height < later
      → later < height + hotshot_range_limit
      → IsU64 (later + 1)
      → parse_hotshot_transactions (range Transaction chain height (later + 1 - height)) height
        ≡ front ++ e ∷ back
      → member (sequence_number e) (map sequence_number back) ≡ false
      → hotshot_height e ≢ height
      → promote_stubs R reader s ≡ s
  promote_stubs_duplicate chain reader s height later later_seq front e back lawful stubs room low
        near fits parsed none_after moved =
      let chosen : BtreeMap ℕ = (sequence_number e, height) ∷ (later_seq, later) ∷ [] in
      let fetched =
        ap (fetch_all R reader (keys chosen))
          (heights_two (sequence_number e) later_seq height later low)
        ∙ fetch_two reader (keys chosen) height later
            (range Transaction chain height (later + 1 - height)) (ground arith)
            (omega (arith, fits)) (lawful height (later + 1))
        ∙ ap (λ es. some (collect R (keys chosen) es [])) parsed in
      promote_both reader (sequence_number e, height) (later_seq, later) s stubs room
      ∙ promote_chosen_duplicate R reader height ((later_seq, later) ∷ []) s front e back [] fetched
          none_after (ground arith)

  -- The state that `promote_stubs` is called with.
  abbrev pruned : ℕ → Streamer R → Streamer R
  pruned idx s = prune R idx (record s {
    last_broadcast_position =
        if ltb s.last_broadcast_position idx then idx else s.last_broadcast_position;
  })

  finalization_ahead :
      (reader : Reader R) (idx : ℕ) (s : Streamer R)
      → s.finalized_idx < idx
      → handle_finalization R reader idx s ≡ promote_stubs R reader (pruned idx s)
  unfolding handle_finalization
  finalization_ahead reader idx s h =
      let ahead : leb idx s.finalized_idx ≡ false = ground arith in
      rw (ahead, handle_finalization) refl

  stubs_stay :
      (idx a b height later : ℕ)
      → idx < a
      → idx < b
      → split_off (idx + 1) ((a, height) ∷ (b, later) ∷ []) ≡ (a, height) ∷ (b, later) ∷ []
  unfolding split_off
  stubs_stay idx a b height later h k = ground arith

  pruned-stubs :
      (idx a b height later : ℕ) (s : Streamer R)
      → s.stubs ≡ (a, height) ∷ (b, later) ∷ []
      → idx < a
      → idx < b
      → IsU64 a
      → (pruned idx s).stubs ≡ (a, height) ∷ (b, later) ∷ []
  unfolding prune
  pruned-stubs idx a b height later s stubs h k fits =
      let below : (idx == u64_max) ≡ false = ground arith in
      rw (below, stubs) (stubs_stay idx a b height later h k)

  pruned-queue : (idx : ℕ) (s : Streamer R) → length (pruned idx s).queue ≤ length s.queue
  unfolding prune
  pruned-queue idx s = length-drop_finalized R idx s.queue

  -- A reader gives the blocks of the chain, one for each height of the range. Two stubs are left, with
  -- room in the queue for both, at heights of one fetch. If the message of the first stands once more in
  -- the blocks up to the height of the second, and last at a height that is not that of the stub, then a
  -- finalized index below both that advances promotes neither of them: both stay stubs, and the queue
  -- loses its finalized entries only.
  pub handle_finalization_duplicate :
      (chain : ℕ → List Transaction) (reader : Reader R) (idx : ℕ) (s : Streamer R)
      (height later later_seq : ℕ) (front : List Entry) (e : Entry) (back : List Entry)
      → ((from to : ℕ) → reader from to ≡ some (range Transaction chain from (to - from)))
      → s.stubs ≡ (sequence_number e, height) ∷ (later_seq, later) ∷ []
      → length s.queue + 2 ≤ s.config.max_full_queue_entries
      → s.finalized_idx < idx
      → idx < sequence_number e
      → idx < later_seq
      → IsU64 (sequence_number e)
      → height < later
      → later < height + hotshot_range_limit
      → IsU64 (later + 1)
      → parse_hotshot_transactions (range Transaction chain height (later + 1 - height)) height
        ≡ front ++ e ∷ back
      → member (sequence_number e) (map sequence_number back) ≡ false
      → hotshot_height e ≢ height
      → ((handle_finalization R reader idx s).stubs ≡ s.stubs)
        × ((handle_finalization R reader idx s).queue
            ≡ drop (partition_point (λ x. leb (sequence_number x) idx) s.queue) s.queue)
  unfolding prune
  handle_finalization_duplicate chain reader idx s height later later_seq front e back lawful stubs
        room ahead first second fits_seq low near fits parsed none_after moved =
      let kept =
        pruned-stubs idx (sequence_number e) later_seq height later s stubs first second fits_seq in
      let stuck =
        finalization_ahead reader idx s ahead
        ∙ promote_stubs_duplicate chain reader (pruned idx s) height later later_seq front e back
            lawful kept (omega (arith, room, pruned-queue idx s)) low near fits parsed none_after
            moved in
      (ap (λ t. t.stubs) stuck ∙ kept ∙ sym stubs, ap (λ t. t.queue) stuck)
