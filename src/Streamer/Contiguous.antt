-- ===== src/Streamer/Contiguous.antt =====
-- streamer/streamer.rs: the run of messages that `find_contiguous_entries_after` takes.
-- The numbers from `n` on, without a gap.
use chain_adjacent_service.Prelude.{
  leb, ◌==◌, Bool-cases, length, drop, ℕ, suc, ◌+◌, ◌<◌, ◌≡◌, refl, inl, inr, true, false, List, [],
  ◌∷◌, arith,
}
use chain_adjacent_service.Prelude.Words.{u64, IsU64}
use chain_adjacent_service.Rollup.{Rollup}
use chain_adjacent_service.BtreeMap.{
  IncreasingFrom, IsIncreasing, member, partition_point, IncreasingFrom-mono, member_below,
}
use chain_adjacent_service.Streamer.{contiguous, seqs}
use chain_adjacent_service.Streamer.Queue.{member-drop_finalized}

abbrev pub ConsecutiveFrom : ℕ → List ℕ → Type 0
ConsecutiveFrom n [] = Unit {0}
ConsecutiveFrom n (x ∷ xs) = (x ≡ n) × ConsecutiveFrom (n + 1) xs

module _ (R : Rollup) where
  open R use {Entry, FeedMessage, sequence_number, convert_entry_to_feed_message}

  pub contiguous-ConsecutiveFrom :
      (last_pos idx n : ℕ) (es : List Entry)
      → n ≡ last_pos + idx + 1
      → IncreasingFrom n (seqs R es)
      → ConsecutiveFrom n (seqs R (contiguous R last_pos idx es))
  unfolding contiguous
  contiguous-ConsecutiveFrom last_pos idx n [] h i = tt
  contiguous-ConsecutiveFrom last_pos idx n (e ∷ es) h i = ground (
    arith,
    contiguous-ConsecutiveFrom last_pos (idx + 1) (n + 1) es,
    IncreasingFrom-mono (n + 1) (suc (sequence_number e)) (seqs R es),
  )

  pub contiguous_step :
      (last_pos idx : ℕ) (e : Entry) (es : List Entry)
      → (sequence_number e == u64 (last_pos + idx + 1)) ≡ true
      → contiguous R last_pos idx (e ∷ es) ≡ e ∷ contiguous R last_pos (idx + 1) es
  unfolding contiguous
  contiguous_step last_pos idx e es h = rw h

  pub contiguous_stop :
      (last_pos idx : ℕ) (e : Entry) (es : List Entry)
      → (sequence_number e == u64 (last_pos + idx + 1)) ≡ false
      → contiguous R last_pos idx (e ∷ es) ≡ []
  unfolding contiguous
  contiguous_stop last_pos idx e es h = rw h

  pub member_past :
      (a : ℕ) (e : Entry) (es : List Entry)
      → sequence_number e < a
      → member a (seqs R es) ≡ false
      → member a (seqs R (e ∷ es)) ≡ false
  unfolding member
  member_past a e es h k = ground arith

  pub contiguous_maximal :
      (last_pos idx n : ℕ) (es : List Entry)
      → n ≡ last_pos + idx + 1
      → IncreasingFrom n (seqs R es)
      → IsU64 (n + length es)
      → member (n + length (contiguous R last_pos idx es)) (seqs R es) ≡ false
  contiguous_maximal last_pos idx n [] h i u = unfold member in refl
  contiguous_maximal last_pos idx n (e ∷ es) h i u =
      elim (Bool-cases (sequence_number e == u64 (last_pos + idx + 1))) [
        | inl next ↦
            let shift : n + suc (length (contiguous R last_pos (idx + 1) es))
                ≡ n + 1 + length (contiguous R last_pos (idx + 1) es) =
              omega arith in
            rw (contiguous_step last_pos idx e es next, shift)
              (member_past (n + 1 + length (contiguous R last_pos (idx + 1) es)) e es (ground arith)
                (contiguous_maximal last_pos (idx + 1) (n + 1) es (omega arith)
                  (IncreasingFrom-mono (n + 1) (suc (sequence_number e)) (seqs R es)
                    (omega (arith, i.0)) i.1)
                  (omega arith)))
        | inr gap ↦
            let none_more : n + 0 ≡ n = omega arith in
            rw (contiguous_stop last_pos idx e es gap, none_more)
              (member_below n (suc n) (seqs R (e ∷ es)) (omega arith) (ground (arith, i.0, i.1)))
      ]

  -- Above the partition point everything is later than the position.
  pub drop_above :
      (p n : ℕ) (q : List Entry)
      → IncreasingFrom n (seqs R q)
      → IncreasingFrom
          (p + 1)
          (seqs R (drop (partition_point (λ e. leb (sequence_number e) p) q) q))
  unfolding partition_point
  drop_above p n [] i = tt
  drop_above p n (x ∷ xs) i = ground (arith, drop_above p (suc (sequence_number x)) xs i.1)

  pub not_queued :
      (a p : ℕ) (q : List Entry)
      → p < a
      → IsIncreasing (seqs R q)
      → member a (seqs R (drop (partition_point (λ e. leb (sequence_number e) p) q) q)) ≡ false
      → member a (seqs R q) ≡ false
  not_queued a p q h i k = ground (arith, member-drop_finalized R a p 0 q i)
