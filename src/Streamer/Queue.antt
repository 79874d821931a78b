-- ===== src/Streamer/Queue.antt =====
-- What the `Vec` operations do to a queue that is sorted by sequence number.
use chain_adjacent_service.Prelude.{
  ltb, leb, ◌==◌, length, get_elem?, drop, length-drop, ℕ, suc, ◌≤◌, ◌≡◌, refl, false, ◌&&◌, ◌||◌,
  List, [], ◌∷◌, arith,
}
use chain_adjacent_service.Rollup.{Rollup}
use chain_adjacent_service.BtreeMap.{
  IncreasingFrom, member, partition_point, insert_at, pop_from, IncreasingFrom-mono, member_below,
}
use chain_adjacent_service.Streamer.{new, seqs, insert_sorted, exists_at}

module _ (R : Rollup) where
  open R use {Entry, sequence_number}

  pub member-insert_sorted :
      (a k : ℕ) (e : Entry) (q : List Entry)
      → sequence_number e ≡ k
      → member a (seqs R (insert_sorted R k e q)) ≡ (a == k || member a (seqs R q))
  unfolding insert_sorted member insert_at partition_point
  member-insert_sorted a k e [] h = rw h
  member-insert_sorted a k e (x ∷ xs) h = ground (arith, member-insert_sorted a k e xs h)

  pub insert_sorted-IncreasingFrom :
      (n k : ℕ) (e : Entry) (q : List Entry)
      → sequence_number e ≡ k
      → n ≤ k
      → member k (seqs R q) ≡ false
      → IncreasingFrom n (seqs R q)
      → IncreasingFrom n (seqs R (insert_sorted R k e q))
  unfolding insert_sorted member insert_at partition_point
  insert_sorted-IncreasingFrom n k e [] h le new i = rw h (le, tt)
  insert_sorted-IncreasingFrom n k e (x ∷ xs) h le new i =
      ground (arith, insert_sorted-IncreasingFrom (suc (sequence_number x)) k e xs h)

  pub length-insert_sorted :
      (k : ℕ) (e : Entry) (q : List Entry) → length (insert_sorted R k e q) ≡ suc (length q)
  unfolding insert_sorted insert_at partition_point
  length-insert_sorted k e [] = refl
  length-insert_sorted k e (x ∷ xs) = ground (arith, length-insert_sorted k e xs)

  -- The test of `filter_messages` finds a sequence number exactly when the queue holds it.
  pub exists_at-member :
      (n k : ℕ) (q : List Entry)
      → IncreasingFrom n (seqs R q)
      → exists_at R k (get_elem? q (partition_point (λ x. ltb (sequence_number x) k) q))
        ≡ member k (seqs R q)
  unfolding exists_at member partition_point
  exists_at-member n k [] i = refl
  exists_at-member n k (x ∷ xs) i = ground (
    arith,
    exists_at-member (suc (sequence_number x)) k xs i.1,
    member_below k (suc (sequence_number x)) (seqs R xs),
  )

  pub member-pop_from :
      (a : ℕ) (x : Entry) (xs : List Entry)
      → member a (seqs R (x ∷ xs))
        ≡ (member a (seqs R (pop_from x xs).0) || a == sequence_number (pop_from x xs).1)
  unfolding pop_from member
  member-pop_from a x [] = ground arith
  member-pop_from a x (y ∷ ys) = ground (arith, member-pop_from a y ys)

  pub pop_from-IncreasingFrom :
      (n : ℕ) (x : Entry) (xs : List Entry)
      → IncreasingFrom n (seqs R (x ∷ xs))
      → IncreasingFrom n (seqs R (pop_from x xs).0)
  unfolding pop_from
  pop_from-IncreasingFrom n x [] i = tt
  pop_from-IncreasingFrom n x (y ∷ ys) i =
      (i.0, pop_from-IncreasingFrom (suc (sequence_number x)) y ys i.1)

  pub pop_from_last :
      (n : ℕ) (x : Entry) (xs : List Entry)
      → IncreasingFrom n (seqs R (x ∷ xs))
      → (n ≤ sequence_number (pop_from x xs).1)
        × (member (sequence_number (pop_from x xs).1) (seqs R (pop_from x xs).0) ≡ false)
  unfolding pop_from member
  pop_from_last n x [] i = (i.0, refl)
  pop_from_last n x (y ∷ ys) i = ground (arith, pop_from_last (suc (sequence_number x)) y ys i.1)

  pub length-pop_from : (x : Entry) (xs : List Entry) → length (pop_from x xs).0 ≡ length xs
  unfolding pop_from
  length-pop_from x [] = refl
  length-pop_from x (y ∷ ys) = omega (arith, length-pop_from y ys)

  -- Dropping up to the partition point keeps what is above it.
  pub member-drop_finalized :
      (a idx n : ℕ) (q : List Entry)
      → IncreasingFrom n (seqs R q)
      → member a (seqs R (drop (partition_point (λ e. leb (sequence_number e) idx) q) q))
        ≡ (ltb idx a && member a (seqs R q))
  unfolding member partition_point
  member-drop_finalized a idx n [] i = ground arith
  member-drop_finalized a idx n (x ∷ xs) i = ground (
    arith,
    member-drop_finalized a idx (suc (sequence_number x)) xs i.1,
    member_below a (suc (sequence_number x)) (seqs R xs),
  )

  pub drop_finalized-IncreasingFrom :
      (idx n : ℕ) (q : List Entry)
      → IncreasingFrom n (seqs R q)
      → IncreasingFrom n (seqs R (drop (partition_point (λ e. leb (sequence_number e) idx) q) q))
  unfolding partition_point
  drop_finalized-IncreasingFrom idx n [] i = tt
  drop_finalized-IncreasingFrom idx n (x ∷ xs) i = ground (
    arith,
    drop_finalized-IncreasingFrom idx (suc (sequence_number x)) xs i.1,
    IncreasingFrom-mono n (suc (sequence_number x))
        (seqs R (drop (partition_point (λ e. leb (sequence_number e) idx) xs) xs)),
  )

  pub length-drop_finalized :
      (idx : ℕ) (q : List Entry)
      → length (drop (partition_point (λ e. leb (sequence_number e) idx) q) q) ≤ length q
  length-drop_finalized idx q =
      omega (arith, length-drop (partition_point (λ e. leb (sequence_number e) idx) q) q)
