-- ===== src/Streamer/Promotion.antt =====
-- A promotion moves stubs to the queue and loses none, whatever the reader answers.
use chain_adjacent_service.Prelude.{
  ltb, Bool-cases, Option-cases, length, take, ℕ, zero, suc, ◌+◌, ◌-◌, ◌≤◌, ◌<◌, ◌≡◌, refl, inl,
  inr, true, Option, none, some, List, [], ◌∷◌, arith,
}
use chain_adjacent_service.Prelude.Words.{u64}
use chain_adjacent_service.Rollup.{Rollup}
use chain_adjacent_service.BtreeMap.{
  IncreasingFrom, IsIncreasing, member, BtreeMap, keys, insert, get, remove,
}
use chain_adjacent_service.BtreeMap.Laws.{member-remove, remove-IncreasingFrom}
use chain_adjacent_service.Streamer.{Streamer, hotshot_range_limit, insert_sorted}
use chain_adjacent_service.Streamer.Promote.{Reader, collect, fetch_window, fetch_heights}
use chain_adjacent_service.Streamer.Queue.{
  member-insert_sorted, insert_sorted-IncreasingFrom, length-insert_sorted,
}
use chain_adjacent_service.Streamer.Invariant.{stubbed, tracked, Inv}
use chain_adjacent_service.Streamer.Filter.{Keeps}

-- The stubs of a list that are increasing from `n` and stand in the map.
abbrev pub Chosen : ℕ → BtreeMap ℕ → BtreeMap ℕ → Type 0
Chosen n [] stubs = Unit {0}
Chosen n ((k, h) ∷ rest) stubs =
    (n ≤ k) × (member k (keys stubs) ≡ true) × Chosen (suc k) rest stubs

pub remove-Chosen :
    (k n : ℕ) (rest stubs : BtreeMap ℕ)
    → k < n
    → IsIncreasing (keys stubs)
    → Chosen n rest stubs
    → Chosen n rest (remove k stubs)
remove-Chosen k n [] stubs lt i c = tt
remove-Chosen k n ((j, h) ∷ rest) stubs lt i c = (
  c.0,
  ground (arith, member-remove j k 0 stubs i, c.1),
  remove-Chosen k (suc j) rest stubs (omega (arith, c.0)) i c.2,
)

pub take-Chosen :
    (m n : ℕ) (xs stubs : BtreeMap ℕ)
    → IncreasingFrom n (keys xs)
    → ((k : ℕ) → member k (keys xs) ≡ true → member k (keys stubs) ≡ true)
    → Chosen n (take m xs) stubs
unfolding member
take-Chosen zero n xs stubs i sub = tt
take-Chosen (suc m) n [] stubs i sub = tt
take-Chosen (suc m) n ((k, h) ∷ xs) stubs i sub =
    (i.0, sub k (ground arith), take-Chosen m (suc k) xs stubs i.1 (λ j e. sub j (ground arith)))

module _ (R : Rollup) where
  open R use {Entry, sequence_number, hotshot_height, parse_hotshot_transactions}

  -- Every entry stands under its own sequence number.
  abbrev pub Keyed : BtreeMap Entry → Type 0
  Keyed [] = Unit {0}
  Keyed ((k, e) ∷ m) = (sequence_number e ≡ k) × Keyed m

  pub get-Keyed :
      (k : ℕ) (e : Entry) (m : BtreeMap Entry) → Keyed m → get k m ≡ some e → sequence_number e ≡ k
  unfolding get
  get-Keyed k e [] ks h = cc
  get-Keyed k e ((j, x) ∷ m) ks h = ground (arith, get-Keyed k e m ks.1)

  insert-Keyed : (e : Entry) (m : BtreeMap Entry) → Keyed m → Keyed (insert (sequence_number e) e m)
  unfolding insert
  insert-Keyed e [] ks = (refl, tt)
  insert-Keyed e ((j, x) ∷ m) ks = ground (arith, insert-Keyed e m ks.1)

  pub remove-Keyed : (k : ℕ) (m : BtreeMap Entry) → Keyed m → Keyed (remove k m)
  unfolding remove
  remove-Keyed k [] ks = tt
  remove-Keyed k ((j, x) ∷ m) ks = ground (arith, remove-Keyed k m ks.1)

  collect-Keyed :
      (expected : List ℕ) (es : List Entry) (m : BtreeMap Entry)
      → Keyed m
      → Keyed (collect R expected es m)
  unfolding collect
  collect-Keyed expected [] m ks = ks
  collect-Keyed expected (e ∷ es) m ks = elim (Bool-cases (member (sequence_number e) expected)) [
    | inl want ↦
        rw want (collect-Keyed expected es (insert (sequence_number e) e m) (insert-Keyed e m ks))
    | inr skip ↦ rw skip (collect-Keyed expected es m ks)
  ]

  abbrev pub KeyedIfSome : Option (BtreeMap Entry) → Type 0
  KeyedIfSome none = Unit {0}
  KeyedIfSome (some m) = Keyed m

  fetch_window-Keyed :
      (reader : Reader R) (expected : List ℕ) (start last : ℕ) (m : BtreeMap Entry)
      → Keyed m
      → KeyedIfSome (fetch_window R reader expected start last m)
  unfolding fetch_window
  fetch_window-Keyed reader expected start last m ks =
      elim (Option-cases (reader start (u64 (last + 1)))) [
        | inl e ↦ rw (e, fetch_window) tt
        | inr (txns, e) ↦
            rw (e, fetch_window)
              (collect-Keyed expected (parse_hotshot_transactions txns start) m ks)
      ]

  pub fetch_heights-Keyed :
      (reader : Reader R) (expected : List ℕ) (start last : ℕ) (hs : List ℕ) (m : BtreeMap Entry)
      → Keyed m
      → KeyedIfSome (fetch_heights R reader expected start last hs m)
  unfolding fetch_heights
  fetch_heights-Keyed reader expected start last [] m ks =
      fetch_window-Keyed reader expected start last m ks
  fetch_heights-Keyed reader expected start last (x ∷ hs) m ks =
      elim (Bool-cases (ltb (x - start) hotshot_range_limit)) [
        | inl near ↦ rw (near, fetch_heights) (fetch_heights-Keyed reader expected start x hs m ks)
        | inr far ↦ elim (Option-cases (fetch_window R reader expected start last m)) [
          | inl e ↦ rw (far, e, fetch_heights) tt
          | inr (more, e) ↦
              rw (far, e, fetch_heights)
                (fetch_heights-Keyed reader expected x x hs more
                  (rw e at (fetch_window-Keyed reader expected start last m ks)))
        ]
      ]

  -- One stub that is promoted.
  abbrev pub promoted : ℕ → Entry → Streamer R → Streamer R
  promoted seq e s = record s { queue = insert_sorted R seq e s.queue; stubs = remove seq s.stubs }

  pub tracked-promoted :
      (k seq : ℕ) (e : Entry) (s : Streamer R)
      → Inv R s
      → sequence_number e ≡ seq
      → stubbed R seq s ≡ true
      → tracked R k (promoted seq e s) ≡ tracked R k s
  tracked-promoted k seq e s v h here =
      ground (arith, member-insert_sorted R k seq e s.queue h, member-remove k seq 0 s.stubs)

  pub promoted-Inv :
      (seq : ℕ) (e : Entry) (s : Streamer R)
      → Inv R s
      → sequence_number e ≡ seq
      → stubbed R seq s ≡ true
      → length s.queue < s.config.max_full_queue_entries
      → Inv R (promoted seq e s)
  promoted-Inv seq e s v h here room = record {
    queue_sorted =
        insert_sorted-IncreasingFrom R 0 seq e s.queue h (omega arith)
          (ground (arith, v.disjoint seq)) v.queue_sorted;
    stubs_sorted = remove-IncreasingFrom 0 seq s.stubs v.stubs_sorted;
    disjoint = λ k. ground (
      arith,
      v.disjoint k,
      member-insert_sorted R k seq e s.queue h,
      member-remove k seq 0 s.stubs,
    );
    capped = omega (arith, length-insert_sorted R seq e s.queue);
  }

  -- What a promotion promises: the same sequence numbers are tracked, and nothing else changes.
  pub record Promotes (s t : Streamer R) : Type 0 where
    pub inv : Inv R t
    pub same_tracked : (k : ℕ) → tracked R k t ≡ tracked R k s
    pub keeps : Keeps R s t
