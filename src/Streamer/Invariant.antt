-- ===== src/Streamer/Invariant.antt =====
-- What holds of the streamer's queue and stubs between two operations, and which sequence numbers
-- the two hold together.
use chain_adjacent_service.Prelude.{
  leb, ◌==◌, length, ℕ, ◌+◌, ◌≤◌, ◌≡◌, refl, Bool, false, ◌&&◌, ◌||◌, List, [], ◌∷◌, arith,
}
use chain_adjacent_service.Rollup.{Rollup}
use chain_adjacent_service.Config.{StreamerConfig}
use chain_adjacent_service.BtreeMap.{IsIncreasing, member, pop_from, keys}
use chain_adjacent_service.BtreeMap.Laws.{member-insert, insert-IncreasingFrom}
use chain_adjacent_service.Streamer.{Streamer, new, settle, seqs, insert_sorted, filter_message}
use chain_adjacent_service.Streamer.Queue.{
  member-insert_sorted, exists_at-member, member-pop_from, pop_from-IncreasingFrom, pop_from_last,
  length-pop_from,
}

abbrev pub queued : (R : Rollup) → ℕ → Streamer R → Bool
queued R k s = member k (seqs R s.queue)

abbrev pub stubbed : (R : Rollup) → ℕ → Streamer R → Bool
stubbed R k s = member k (keys s.stubs)

-- The streamer knows the message, in full or as a stub.
abbrev pub tracked : (R : Rollup) → ℕ → Streamer R → Bool
tracked R k s = queued R k s || stubbed R k s

-- Both parts are in order and share no sequence number, and the queue is within its limit.
pub record Inv (R : Rollup) (s : Streamer R) : Type 0 where
  pub queue_sorted : IsIncreasing (seqs R s.queue)
  pub stubs_sorted : IsIncreasing (keys s.stubs)
  pub disjoint : (k : ℕ) → (queued R k s && stubbed R k s) ≡ false
  pub capped : length s.queue ≤ s.config.max_full_queue_entries

module _ (R : Rollup) where
  open R use {Entry, sequence_number, hotshot_height}

  pub new-Inv : (c : StreamerConfig) → Inv R (new R c)
  unfolding new member
  new-Inv c = record {
    queue_sorted = tt;
    stubs_sorted = tt;
    disjoint = λ k. refl;
    capped = omega arith;
  }

  tracked-settle :
      (k : ℕ) (q : List Entry) (s : Streamer R)
      → tracked R k (settle R q s) ≡ (member k (seqs R q) || stubbed R k s)
  unfolding settle
  tracked-settle k [] s = refl
  tracked-settle k (x ∷ xs) s = ground (
    arith,
    member-pop_from R k x xs,
    member-insert k (sequence_number (pop_from x xs).1) (hotshot_height (pop_from x xs).1) s.stubs,
  )

  pub settle-Inv :
      (q : List Entry) (s : Streamer R)
      → IsIncreasing (seqs R q)
      → IsIncreasing (keys s.stubs)
      → ((k : ℕ) → (member k (seqs R q) && stubbed R k s) ≡ false)
      → length q ≤ s.config.max_full_queue_entries + 1
      → Inv R (settle R q s)
  unfolding settle
  settle-Inv [] s i j d c = record {
    queue_sorted = tt;
    stubs_sorted = j;
    disjoint = d;
    capped = omega arith;
  }
  settle-Inv (x ∷ xs) s i j d c = record {
    queue_sorted = ground (arith, pop_from-IncreasingFrom R 0 x xs);
    stubs_sorted =
        ground
          (arith, insert-IncreasingFrom 0 (sequence_number last) (hotshot_height last) s.stubs);
    disjoint = λ k. ground (
      arith,
      d k,
      member-pop_from R k x xs,
      pop_from_last R 0 x xs i,
      member-insert k (sequence_number last) (hotshot_height last) s.stubs,
    );
    capped = ground (arith, length-pop_from R x xs);
  }
    where
      last : Entry
      last = (pop_from x xs).1

  pub tracked-filter_message :
      (k : ℕ) (e : Entry) (s : Streamer R)
      → Inv R s
      → tracked R k (filter_message R e s)
        ≡ (tracked R k s || (leb s.config.starting_pos k && k == sequence_number e))
  unfolding filter_message
  tracked-filter_message k e s v = ground (
    arith,
    exists_at-member R 0 (sequence_number e) s.queue v.queue_sorted,
    tracked-settle k (insert_sorted R (sequence_number e) e s.queue) s,
    member-insert_sorted R k (sequence_number e) e s.queue refl,
  )
