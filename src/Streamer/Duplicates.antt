-- ===== src/Streamer/Duplicates.antt =====
-- streamer/streamer.rs: which of two entries with one sequence number `promote_stubs` takes.
pub mod Retries
use chain_adjacent_service.Prelude.{
  ltb, leb, if◌then◌else◌, drop, sym, length, ◌==◌, Bool-cases, ==_refl, ℕ, ◌+◌, ◌-◌, ◌≤◌, ◌<◌, min,
  ap, ◌≢◌, ◌≡◌, refl, ◌∙◌, inl, inr, true, false, some, List, [], ◌∷◌, ◌++◌, map, arith,
}
use chain_adjacent_service.Rollup.{Rollup}
use chain_adjacent_service.BtreeMap.{
  member, BtreeMap, keys, insert, get, split_off, partition_point,
}
use chain_adjacent_service.Prelude.Words.{u64, IsU64}
use chain_adjacent_service.Streamer.{Streamer, hotshot_range_limit, u64_max}
use chain_adjacent_service.Streamer.Queue.{length-drop_finalized}
use chain_adjacent_service.Streamer.Poll.Coverage.{range}
use chain_adjacent_service.Streamer.Promote.{
  set_insert, heights_of, Reader, collect, fetch_window, fetch_heights, fetch_all, promote_entries,
  promote_chosen, promote_stubs, prune, handle_finalization,
}

get-insert : {V : Type 0} (k : ℕ) (v : V) (m : BtreeMap V) → get k (insert k v m) ≡ some v
unfolding get insert
get-insert k v [] = ground arith
get-insert k v ((j, w) ∷ m) = ground (arith, get-insert k v m)

get-insert_ne :
    {V : Type 0} (k j : ℕ) (v : V) (m : BtreeMap V)
    → (k == j) ≡ false
    → get k (insert j v m) ≡ get k m
unfolding get insert
get-insert_ne k j v [] h = ground arith
get-insert_ne k j v ((i, w) ∷ m) h = ground (arith, get-insert_ne k j v m h)

member_cons :
    (k x : ℕ) (xs : List ℕ) → member k (x ∷ xs) ≡ false → ((k == x) ≡ false) × (member k xs ≡ false)
unfolding member
member_cons k x xs h = ground arith

member_first : (k : ℕ) (ks : List ℕ) → member k (k ∷ ks) ≡ true
unfolding member
member_first k ks = rw (==_refl k) refl

module _ (R : Rollup) where
  open R use {Entry, Transaction, sequence_number, hotshot_height, parse_hotshot_transactions}

  collect_other :
      (expected : List ℕ) (k : ℕ) (es : List Entry) (fetched : BtreeMap Entry)
      → member k (map sequence_number es) ≡ false
      → get k (collect R expected es fetched) ≡ get k fetched
  unfolding collect member
  collect_other expected k [] fetched h = refl
  collect_other expected k (e ∷ es) fetched h =
      elim (Bool-cases (member (sequence_number e) expected)) [
        | inl m ↦ rw m (
            collect_other expected k es (insert (sequence_number e) e fetched)
              ((member_cons k _ _ h).1)
            ∙ get-insert_ne k (sequence_number e) e fetched ((member_cons k _ _ h).0))
        | inr m ↦ rw m (collect_other expected k es fetched ((member_cons k _ _ h).1))
      ]

  -- Of the entries with one sequence number, the last that was fetched is kept.
  collect_last :
      (expected : List ℕ) (front : List Entry) (e : Entry) (back : List Entry)
      (fetched : BtreeMap Entry)
      → member (sequence_number e) expected ≡ true
      → member (sequence_number e) (map sequence_number back) ≡ false
      → get (sequence_number e) (collect R expected (front ++ e ∷ back) fetched) ≡ some e
  unfolding collect
  collect_last expected [] e back fetched m h =
      rw (m, collect)
        (collect_other expected (sequence_number e) back (insert (sequence_number e) e fetched) h
          ∙ get-insert (sequence_number e) e fetched)
  collect_last expected (x ∷ front) e back fetched m h = collect_last expected front e back _ m h

  blocked :
      (e : Entry) (height : ℕ) (rest : BtreeMap ℕ) (s : Streamer R) (fetched : BtreeMap Entry)
      → get (sequence_number e) fetched ≡ some e
      → (hotshot_height e == height) ≡ false
      → promote_entries R ((sequence_number e, height) ∷ rest) fetched s ≡ s
  unfolding promote_entries
  blocked e height rest s fetched g h = rw (g, h, promote_entries) refl

  -- The message of the first chosen stub, fetched last at another height, stops the promotion.
  pub promote_chosen_duplicate :
      (reader : Reader R) (height : ℕ) (rest : BtreeMap ℕ) (s : Streamer R) (front : List Entry)
      (e : Entry) (back : List Entry) (before : BtreeMap Entry)
      → let chosen = (sequence_number e, height) ∷ rest in
        fetch_all R reader (keys chosen) (heights_of chosen)
          ≡ some (collect R (keys chosen) (front ++ e ∷ back) before)
        → member (sequence_number e) (map sequence_number back) ≡ false
        → (hotshot_height e == height) ≡ false
        → promote_chosen R reader ((sequence_number e, height) ∷ rest) s ≡ s
  unfolding promote_chosen
  promote_chosen_duplicate reader height rest s front e back before f none_after h =
      rw (f, promote_chosen)
        (blocked e height rest s
          (collect R (keys ((sequence_number e, height) ∷ rest)) (front ++ e ∷ back) before)
          (collect_last (keys ((sequence_number e, height) ∷ rest)) front e back before
            (member_first (sequence_number e) (keys rest)) none_after)
          h)
