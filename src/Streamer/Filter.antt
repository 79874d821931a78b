-- ===== src/Streamer/Filter.antt =====
-- `filter_messages` over any list of parsed entries.
use chain_adjacent_service.Prelude.{
  ltb, leb, Bool-cases, ℕ, ◌≡◌, refl, inl, inr, false, ◌&&◌, ◌||◌, List, [], ◌∷◌, arith,
}
use chain_adjacent_service.Rollup.{Rollup}
use chain_adjacent_service.BtreeMap.{member}
use chain_adjacent_service.Streamer.{
  Streamer, settle, seqs, insert_sorted, filter_message, filter_messages,
}
use chain_adjacent_service.Streamer.Queue.{
  member-insert_sorted, insert_sorted-IncreasingFrom, length-insert_sorted, exists_at-member,
}
use chain_adjacent_service.Streamer.Invariant.{tracked, Inv, settle-Inv, tracked-filter_message}

module _ (R : Rollup) where
  open R use {Entry, sequence_number}

  -- What neither `filter_messages` nor a promotion touches.
  abbrev pub Keeps : Streamer R → Streamer R → Type 0
  Keeps s t =
      (t.config ≡ s.config)
      × (t.finalized_idx ≡ s.finalized_idx)
      × (t.last_broadcast_position ≡ s.last_broadcast_position)

  filter_message-Keeps : (e : Entry) (s : Streamer R) → Keeps s (filter_message R e s)
  unfolding filter_message
  filter_message-Keeps e s = ground arith

  -- An entry that is new goes in at its place, and the queue is then one too long at most.
  insert-Inv :
      (e : Entry) (s : Streamer R)
      → Inv R s
      → tracked R (sequence_number e) s ≡ false
      → Inv R (settle R (insert_sorted R (sequence_number e) e s.queue) s)
  insert-Inv e s v fresh =
      settle-Inv R (insert_sorted R (sequence_number e) e s.queue) s
        (insert_sorted-IncreasingFrom R 0 (sequence_number e) e s.queue refl (omega arith)
          (ground arith) v.queue_sorted)
        v.stubs_sorted
        (λ k.
          ground (arith, v.disjoint k, member-insert_sorted R k (sequence_number e) e s.queue refl))
        (omega (arith, v.capped, length-insert_sorted R (sequence_number e) e s.queue))

  filter_message-Inv : (e : Entry) (s : Streamer R) → Inv R s → Inv R (filter_message R e s)
  unfolding filter_message
  filter_message-Inv e s v = elim (Bool-cases (ltb (sequence_number e) s.config.starting_pos)) [
    | inl early ↦ rw early v
    | inr late ↦ elim (Bool-cases (tracked R (sequence_number e) s)) [
      | inl old ↦ rw (late, exists_at-member R 0 (sequence_number e) s.queue v.queue_sorted, old) v
      | inr fresh ↦
          rw (late, exists_at-member R 0 (sequence_number e) s.queue v.queue_sorted, fresh)
            (insert-Inv e s v fresh)
    ]
  ]

  pub filter_messages-Keeps : (es : List Entry) (s : Streamer R) → Keeps s (filter_messages R es s)
  unfolding filter_messages
  filter_messages-Keeps [] s = (refl, refl, refl)
  filter_messages-Keeps (e ∷ es) s =
      ground (arith, filter_message-Keeps e s, filter_messages-Keeps es (filter_message R e s))

  -- `filter_messages` keeps the queue and the stubs in order, disjoint and within the limit.
  pub filter_messages-Inv :
      (es : List Entry) (s : Streamer R) → Inv R s → Inv R (filter_messages R es s)
  unfolding filter_messages
  filter_messages-Inv [] s v = v
  filter_messages-Inv (e ∷ es) s v =
      filter_messages-Inv es (filter_message R e s) (filter_message-Inv e s v)

  -- On a state with the invariant, a sequence number is tracked after `filter_messages`, in the queue or
  -- as a stub, exactly if it was tracked before or is one of the entries' and not below the starting
  -- position.
  pub tracked-filter_messages :
      (k : ℕ) (es : List Entry) (s : Streamer R)
      → Inv R s
      → tracked R k (filter_messages R es s)
        ≡ (tracked R k s || (leb s.config.starting_pos k && member k (seqs R es)))
  unfolding filter_messages member
  tracked-filter_messages k [] s v = ground arith
  tracked-filter_messages k (e ∷ es) s v = ground (
    arith,
    tracked-filter_messages k es (filter_message R e s) (filter_message-Inv e s v),
    tracked-filter_message R k e s v,
    filter_message-Keeps e s,
  )
