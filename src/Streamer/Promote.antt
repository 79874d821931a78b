-- ===== src/Streamer/Promote.antt =====
-- streamer/streamer.rs: finalization, and the promotion of stubs that it makes room for. A reader
-- gives the transactions of a half-open range of HotShot blocks, or fails.
use chain_adjacent_service.Prelude.{
  is_empty, ltb, leb, ◌==◌, if◌then◌else◌, length, take, drop, ℕ, ◌+◌, ◌-◌, min, true, false, ◌||◌,
  Option, none, some, List, [], ◌∷◌,
}
use chain_adjacent_service.Prelude.Words.{u64}
use chain_adjacent_service.Rollup.{Rollup}
use chain_adjacent_service.BtreeMap.{
  member, partition_point, BtreeMap, keys, insert, get, remove, split_off,
}
use chain_adjacent_service.Streamer.{Streamer, hotshot_range_limit, u64_max, insert_sorted}

-- `collect::<BTreeSet<u64>>` of the heights.
unfoldable pub set_insert : ℕ → List ℕ → List ℕ
set_insert h [] = h ∷ []
set_insert h (x ∷ xs) =
    if ltb h x then h ∷ x ∷ xs else if h == x then x ∷ xs else x ∷ set_insert h xs

unfoldable pub heights_of : BtreeMap ℕ → List ℕ
unfolding set_insert
heights_of [] = []
heights_of ((seq, h) ∷ stubs) = set_insert h (heights_of stubs)

module _ (R : Rollup) where
  open R use {Entry, Transaction, sequence_number, hotshot_height, parse_hotshot_transactions}

  abbrev pub Reader : Type 0
  Reader = ℕ → ℕ → Option (List (List Transaction))

  unfoldable pub collect : List ℕ → List Entry → BtreeMap Entry → BtreeMap Entry
  collect expected [] fetched = fetched
  collect expected (e ∷ es) fetched = collect expected es (
      if member (sequence_number e) expected then insert (sequence_number e) e fetched else fetched)

  unfoldable pub fetch_window : Reader → List ℕ → ℕ → ℕ → BtreeMap Entry → Option (BtreeMap Entry)
  unfolding collect
  fetch_window reader expected start last fetched = elim (reader start (u64 (last + 1))) [
    | none ↦ none
    | some txns ↦ some (collect expected (parse_hotshot_transactions txns start) fetched)
  ]

  -- The `while` loops over `heights`: the window that began at `start` reaches `last` so far.
  unfoldable pub fetch_heights :
      Reader → List ℕ → ℕ → ℕ → List ℕ → BtreeMap Entry → Option (BtreeMap Entry)
  unfolding fetch_window
  fetch_heights reader expected start last [] fetched =
      fetch_window reader expected start last fetched
  fetch_heights reader expected start last (h ∷ hs) fetched =
      elim (ltb (h - start) hotshot_range_limit) [
        | true ↦ fetch_heights reader expected start h hs fetched
        | false ↦ elim (fetch_window reader expected start last fetched) [
          | none ↦ none
          | some more ↦ fetch_heights reader expected h h hs more
        ]
      ]

  unfoldable pub fetch_all : Reader → List ℕ → List ℕ → Option (BtreeMap Entry)
  unfolding fetch_heights
  fetch_all reader expected [] = some []
  fetch_all reader expected (h ∷ hs) = fetch_heights reader expected h h hs []

  -- The last loop of `promote_stubs`.
  unfoldable pub promote_entries : BtreeMap ℕ → BtreeMap Entry → Streamer R → Streamer R
  promote_entries [] fetched s = s
  promote_entries ((seq, expected_height) ∷ rest) fetched s = elim (get seq fetched) [
    | none ↦ promote_entries rest fetched s
    | some e ↦ elim (hotshot_height e == expected_height) [
      | false ↦ s
      | true ↦
          promote_entries rest (remove seq fetched)
            (record s { queue = insert_sorted R seq e s.queue; stubs = remove seq s.stubs })
    ]
  ]

  unfoldable pub promote_chosen : Reader → BtreeMap ℕ → Streamer R → Streamer R
  unfolding fetch_all promote_entries heights_of
  promote_chosen reader stubs_to_promote s =
      elim (fetch_all reader (keys stubs_to_promote) (heights_of stubs_to_promote)) [
        | none ↦ s
        | some fetched ↦ promote_entries stubs_to_promote fetched s
      ]

  unfoldable pub promote_stubs : Reader → Streamer R → Streamer R
  unfolding promote_chosen
  promote_stubs reader s =
      let room = s.config.max_full_queue_entries - length s.queue in
      if room == 0 || is_empty s.stubs
      then s
      else promote_chosen reader (take (min room (length s.stubs)) s.stubs) s

  -- The state just before `promote_stubs` is called.
  unfoldable pub prune : ℕ → Streamer R → Streamer R
  prune idx s = record s {
    finalized_idx = idx;
    queue = drop (partition_point (λ e. leb (sequence_number e) idx) s.queue) s.queue;
    stubs = if idx == u64_max then [] else split_off (idx + 1) s.stubs;
  }

  unfoldable pub handle_finalization : Reader → ℕ → Streamer R → Streamer R
  unfolding promote_stubs prune
  handle_finalization reader new_finalized_idx s =
      let s' : Streamer R = (record s {
        last_broadcast_position =
            if ltb s.last_broadcast_position new_finalized_idx
            then new_finalized_idx
            else s.last_broadcast_position;
      }) in
      if leb new_finalized_idx s.finalized_idx
      then s'
      else promote_stubs reader (prune new_finalized_idx s')
