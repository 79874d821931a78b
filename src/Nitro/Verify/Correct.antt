-- ===== src/Nitro/Verify/Correct.antt =====
-- rollups/nitro/nitro.rs: what `verify_batch_messages` accepts, and the result it then gives.
use chain_adjacent_service.Prelude.{
  ltb, Bool-cases, Option-cases, length, drop, drop-append, ℕ, ◌+◌, ◌<◌, ◌≡◌, refl, ap, ◌∙◌, subst,
  inl, inr, true, false, some, List, [], ◌∷◌, ◌++◌, map, arith,
}
use chain_adjacent_service.Prelude.Words.{IsU64}
use chain_adjacent_service.BtreeMap.{IsIncreasing}
use chain_adjacent_service.Nitro.{BatchMessage, BatchCursor, NitroRollupQueueEntry, sequence_number}
use chain_adjacent_service.Nitro.Verify.{
  binary_search_by_key, check_messages, verified, summarize, verify_from, verify_batch_messages,
}
use chain_adjacent_service.Nitro.Verify.Matching.{
  Matches, check_messages-Matches, Matches-check_messages, Matches-length,
  binary_search_by_key_split, binary_search_by_key_found,
}

verify_batch_messages_at :
    (batch_messages : List BatchMessage) (queue : List NitroRollupQueueEntry)
    (context : BatchCursor) (pos : ℕ)
    → binary_search_by_key context.next_batch_start_pos sequence_number queue ≡ some pos
    → verify_batch_messages batch_messages queue context
      ≡ verify_from batch_messages (drop pos queue) context
unfolding verify_batch_messages verify_from
verify_batch_messages_at batch_messages queue context pos e = rw (e, verify_batch_messages) refl

verify_from_success :
    (batch_messages : List BatchMessage) (queue : List NitroRollupQueueEntry)
    (context : BatchCursor)
    → (verify_from batch_messages queue context).success ≡ true
    → (m : ℕ) × (0 < length batch_messages)
      × (Matches context.last_batch_delayed_messages_read batch_messages queue m)
      × (verify_from batch_messages queue context
          ≡ verified batch_messages queue context.next_batch_start_pos m)
unfolding verify_from summarize
verify_from_success [] queue context h = absurd (ground arith)
verify_from_success (b ∷ bs) queue context h =
    elim (Bool-cases (ltb (length queue) (length (b ∷ bs)))) [
      | inl e ↦ absurd (ground arith)
      | inr e ↦
          elim (Option-cases
            (check_messages (b ∷ bs) queue context.last_batch_delayed_messages_read)) [
              | inl g ↦ absurd (ground arith)
              | inr (m, g) ↦
                  (m, omega arith, check_messages-Matches (b ∷ bs) queue _ m g, rw (e, g) refl)
            ]
    ]

verify_from-Matches :
    (b : BatchMessage) (bs : List BatchMessage) (queue : List NitroRollupQueueEntry)
    (context : BatchCursor) (m : ℕ)
    → Matches context.last_batch_delayed_messages_read (b ∷ bs) queue m
    → verify_from (b ∷ bs) queue context ≡ verified (b ∷ bs) queue context.next_batch_start_pos m
unfolding verify_from summarize
verify_from-Matches b bs queue context m h =
    let e : ltb (length queue) (length (b ∷ bs)) ≡ false = ground (arith, Matches-length h) in
    rw (e, Matches-check_messages h) refl

-- A batch for which `verify_batch_messages` reports success is not empty, its first message is
-- compared with an entry whose sequence number is the start position of the cursor, and each
-- message matches the entry at its index from there on, in content and in the running count of
-- delayed messages. The result is then the one of `verified` on these entries, with that count.
pub verify_batch_messages_sound :
    (batch_messages : List BatchMessage) (queue : List NitroRollupQueueEntry)
    (context : BatchCursor)
    → (verify_batch_messages batch_messages queue context).success ≡ true
    → (front : List NitroRollupQueueEntry) × (entry : NitroRollupQueueEntry) × (rest : List
        NitroRollupQueueEntry)
      × (m : ℕ) × (queue ≡ front ++ entry ∷ rest)
      × (sequence_number entry ≡ context.next_batch_start_pos)
      × (0 < length batch_messages)
      × (Matches context.last_batch_delayed_messages_read batch_messages (entry ∷ rest) m)
      × (verify_batch_messages batch_messages queue context
          ≡ verified batch_messages (entry ∷ rest) context.next_batch_start_pos m)
unfolding verify_batch_messages
verify_batch_messages_sound batch_messages queue context h =
    elim (Option-cases (binary_search_by_key context.next_batch_start_pos sequence_number queue)) [
      | inl e ↦ absurd (ground arith)
      | inr (pos, e) ↦
          let at = verify_batch_messages_at batch_messages queue context pos e in
          let (front, entry, rest, d, key, whole) =
            binary_search_by_key_split context.next_batch_start_pos sequence_number queue pos e in
          let (m, positive, matches, result) =
            verify_from_success batch_messages (entry ∷ rest) context (
              subst (λ q. (verify_from batch_messages q context).success ≡ true) d
                (subst (λ r. r.success ≡ true) at h)) in
          (
            front,
            entry,
            rest,
            m,
            whole,
            key,
            positive,
            matches,
            at ∙ ap (λ q. verify_from batch_messages q context) d ∙ result,
          )
    ]

-- The other way round, on a queue in increasing order of sequence numbers: a batch with a message
-- that matches the entries from the cursor's start position on is accepted, and the result is the
-- one of `verified` on these entries.
pub verify_batch_messages_complete :
    (b : BatchMessage) (bs : List BatchMessage) (context : BatchCursor)
    (front : List NitroRollupQueueEntry) (entry : NitroRollupQueueEntry)
    (rest : List NitroRollupQueueEntry) (m : ℕ)
    → IsIncreasing (map sequence_number (front ++ entry ∷ rest))
    → sequence_number entry ≡ context.next_batch_start_pos
    → Matches context.last_batch_delayed_messages_read (b ∷ bs) (entry ∷ rest) m
    → verify_batch_messages (b ∷ bs) (front ++ entry ∷ rest) context
      ≡ verified (b ∷ bs) (entry ∷ rest) context.next_batch_start_pos m
verify_batch_messages_complete b bs context front entry rest m sorted key h =
    let found =
      binary_search_by_key_found context.next_batch_start_pos 0 sequence_number front entry rest
        sorted key in
    verify_batch_messages_at (b ∷ bs) (front ++ entry ∷ rest) context (length front) found
    ∙ ap (λ q. verify_from (b ∷ bs) q context) (drop-append front (entry ∷ rest))
    ∙ verify_from-Matches b bs (entry ∷ rest) context m h

-- On a queue in increasing order whose second entry from the start position on is not the next one
-- (a message is missing), two messages that match these two entries are accepted all the same, and
-- the end position of the result is smaller than the sequence number of the last entry that was
-- compared. The sequence numbers are of 64 bits.
pub verify_batch_messages_gap :
    (b c : BatchMessage) (context : BatchCursor) (front : List NitroRollupQueueEntry)
    (entry next : NitroRollupQueueEntry) (rest : List NitroRollupQueueEntry) (m : ℕ)
    → IsIncreasing (map sequence_number (front ++ entry ∷ next ∷ rest))
    → sequence_number entry ≡ context.next_batch_start_pos
    → sequence_number entry + 1 < sequence_number next
    → IsU64 (sequence_number next)
    → Matches context.last_batch_delayed_messages_read (b ∷ c ∷ []) (entry ∷ next ∷ rest) m
    → let result = verify_batch_messages (b ∷ c ∷ []) (front ++ entry ∷ next ∷ rest) context in
      (result.success ≡ true) × (result.end_message_position < sequence_number next)
verify_batch_messages_gap b c context front entry next rest m sorted key gap bound h =
    let e =
      verify_batch_messages_complete b (c ∷ []) context front entry (next ∷ rest) m sorted key h in
    (ap (λ r. r.success) e, ground (arith, ap (λ r. r.end_message_position) e))
