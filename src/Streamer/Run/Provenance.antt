-- ===== src/Streamer/Run/Provenance.antt =====
-- streamer/streamer.rs: where the entries of the queue come from.
use chain_adjacent_service.Prelude.{
  is_empty, ltb, leb, ◌==◌, if◌then◌else◌, Bool-cases, Option-cases, length, get_elem?, take, ℕ,
  zero, suc, ◌+◌, ◌-◌, min, ◌≡◌, refl, sym, ap, ◌∙◌, subst, inl, inr, Bool, true, false, ◌||◌,
  Option, none, some, List, [], ◌∷◌, arith,
}
use chain_adjacent_service.Prelude.Words.{u64, All, All-drop}
use chain_adjacent_service.Rollup.{Rollup}
use chain_adjacent_service.Config.{StreamerConfig}
use chain_adjacent_service.BtreeMap.{
  member, partition_point, insert_at, pop_from, BtreeMap, keys, insert, get, remove,
}
use chain_adjacent_service.Streamer.{
  Streamer, Broadcast, new, hotshot_range_limit, broadcast_entries, try_broadcast_feed_message,
  evict, settle, insert_sorted, exists_at, filter_message, filter_messages,
}
use chain_adjacent_service.Streamer.Promote.{
  heights_of, Reader, collect, fetch_window, fetch_heights, fetch_all, promote_entries,
  promote_chosen, promote_stubs, prune, handle_finalization,
}
use chain_adjacent_service.Streamer.Sending.{took, broadcast_entries_step}
use chain_adjacent_service.Streamer.Run.Order.{entries_closed, entries_full}
use chain_adjacent_service.Streamer.Run.{
  Event, finalized, batch_received, transactions_received, retry_received, relay_took, relay_closed,
  Loop, handle_hotshot_transactions, step, Reaches, here, then_step, start,
}

if_either : {X : Type 0} (Q : X → Type 0) (b : Bool) (x y : X) → Q x → Q y → Q (if b then x else y)
if_either Q true x y h k = h
if_either Q false x y h k = k

module _ {A : Type 0} (P : A → Type 0) where
  insert_at-All : (n : ℕ) (a : A) (xs : List A) → P a → All P xs → All P (insert_at n a xs)
  unfolding insert_at
  insert_at-All zero a xs p h = (p, h)
  insert_at-All (suc n) a [] p h = (p, tt)
  insert_at-All (suc n) a (x ∷ xs) p h = (h.0, insert_at-All n a xs p h.1)

  pop_from-All : (x : A) (xs : List A) → P x → All P xs → All P (pop_from x xs).0
  unfolding pop_from
  pop_from-All x [] p h = tt
  pop_from-All x (y ∷ ys) p h = (p, pop_from-All y ys h.0 h.1)

  abbrev pub AllValues : BtreeMap A → Type 0
  AllValues m = All (λ kv. P kv.1) m

  insert-AllValues : (k : ℕ) (v : A) (m : BtreeMap A) → P v → AllValues m → AllValues (insert k v m)
  unfolding insert
  insert-AllValues k v [] p h = (p, tt)
  insert-AllValues k v ((j, w) ∷ m) p h = elim (Bool-cases (ltb k j)) [
    | inl e ↦ rw e (p, h)
    | inr e ↦ elim (Bool-cases (k == j)) [
      | inl f ↦ rw (e, f) (p, h.1)
      | inr f ↦ rw (e, f) (h.0, insert-AllValues k v m p h.1)
    ]
  ]

  get-AllValues : (k : ℕ) (m : BtreeMap A) (v : A) → AllValues m → get k m ≡ some v → P v
  unfolding get
  get-AllValues k [] v h e = absurd (ground arith)
  get-AllValues k ((j, w) ∷ m) v h e = elim (Bool-cases (k == j)) [
    | inl f ↦ subst P (found (rw f at e)) h.0
    | inr f ↦ get-AllValues k m v h.1 (rw f at e)
  ]
    where
      found : Path (Option A) (some w) (some v) → w ≡ v
      found e = cc

  remove-AllValues : (k : ℕ) (m : BtreeMap A) → AllValues m → AllValues (remove k m)
  unfolding remove
  remove-AllValues k [] h = tt
  remove-AllValues k ((j, w) ∷ m) h = elim (Bool-cases (k == j)) [
    | inl f ↦ rw f h.1
    | inr f ↦ rw f (h.0, remove-AllValues k m h.1)
  ]

module _ (R : Rollup) (P : R.Entry → Type 0)
    (parsed : (blocks : List (List R.Transaction)) (height : ℕ)
      → All P (R.parse_hotshot_transactions blocks height)) where
  open R use {Entry, Transaction, sequence_number, hotshot_height, parse_hotshot_transactions}

  settle-All : (xs : List Entry) (s : Streamer R) → All P xs → All P (settle R xs s).queue
  unfolding settle evict
  settle-All [] s h = tt
  settle-All (x ∷ xs) s h =
      elim (Bool-cases (ltb s.config.max_full_queue_entries (length (x ∷ xs)))) [
        | inl e ↦ rw e (pop_from-All P x xs h.0 h.1)
        | inr e ↦ rw e h
      ]

  insert_sorted-All :
      (seq : ℕ) (e : Entry) (queue : List Entry)
      → P e
      → All P queue
      → All P (insert_sorted R seq e queue)
  unfolding insert_sorted
  insert_sorted-All seq e queue p h = insert_at-All P _ e queue p h

  filter_message-All :
      (e : Entry) (s : Streamer R) → P e → All P s.queue → All P (filter_message R e s).queue
  unfolding filter_message
  filter_message-All e s p q =
      let seq = sequence_number e in
      let pos = partition_point (λ x. ltb (sequence_number x) seq) s.queue in
      let known = exists_at R seq (get_elem? s.queue pos) || member seq (keys s.stubs) in
      let added = settle R (insert_sorted R seq e s.queue) s in
      let Kept = λ (t : Streamer R). All P t.queue in
      if_either Kept (ltb seq s.config.starting_pos) s (if known then s else added) q
        (if_either Kept known s added q (settle-All _ s (insert_sorted-All seq e s.queue p q)))

  filter_messages-All :
      (es : List Entry) (s : Streamer R)
      → All P es
      → All P s.queue
      → All P (filter_messages R es s).queue
  unfolding filter_messages
  filter_messages-All [] s h q = q
  filter_messages-All (e ∷ es) s h q = filter_messages-All es _ h.1 (filter_message-All e s h.0 q)

  collect-AllValues :
      (expected : List ℕ) (es : List Entry) (fetched : BtreeMap Entry)
      → All P es
      → AllValues P fetched
      → AllValues P (collect R expected es fetched)
  unfolding collect
  collect-AllValues expected [] fetched h q = q
  collect-AllValues expected (e ∷ es) fetched h q =
      collect-AllValues expected es _ h.1
        (if_either (AllValues P) _ _ _ (insert-AllValues P (sequence_number e) e fetched h.0 q) q)

  abbrev AllFetched : Option (BtreeMap Entry) → Type 0
  AllFetched none = Unit {0}
  AllFetched (some m) = AllValues P m

  fetch_window-AllFetched :
      (reader : Reader R) (expected : List ℕ) (first last : ℕ) (fetched : BtreeMap Entry)
      → AllValues P fetched
      → AllFetched (fetch_window R reader expected first last fetched)
  unfolding fetch_window
  fetch_window-AllFetched reader expected first last fetched q =
      elim (Option-cases (reader first (u64 (last + 1)))) [
        | inl e ↦
            let same : fetch_window R reader expected first last fetched ≡ none =
              rw (fetch_window, e) refl in
            subst AllFetched (sym same) tt
        | inr (txns, e) ↦
            let taken = collect R expected (parse_hotshot_transactions txns first) fetched in
            let same : fetch_window R reader expected first last fetched ≡ some taken =
              rw (fetch_window, e) refl in
            subst AllFetched (sym same) (
              collect-AllValues expected (parse_hotshot_transactions txns first) fetched
                (parsed txns first) q)
      ]

  fetch_heights-AllFetched :
      (reader : Reader R) (expected : List ℕ) (first last : ℕ) (heights : List ℕ)
      (fetched : BtreeMap Entry)
      → AllValues P fetched
      → AllFetched (fetch_heights R reader expected first last heights fetched)
  unfolding fetch_heights
  fetch_heights-AllFetched reader expected first last [] fetched q =
      fetch_window-AllFetched reader expected first last fetched q
  fetch_heights-AllFetched reader expected first last (h ∷ hs) fetched q =
      let whole = fetch_heights R reader expected first last (h ∷ hs) fetched in
      elim (Bool-cases (ltb (h - first) hotshot_range_limit)) [
        | inl e ↦
            let same : whole ≡ fetch_heights R reader expected first h hs fetched =
              rw (fetch_heights, e) refl in
            subst AllFetched (sym same)
              (fetch_heights-AllFetched reader expected first h hs fetched q)
        | inr e ↦ elim (Option-cases (fetch_window R reader expected first last fetched)) [
          | inl f ↦
              let same : whole ≡ none = rw (fetch_heights, e, f) refl in
              subst AllFetched (sym same) tt
          | inr (more, f) ↦
              let kept : AllValues P more =
                subst AllFetched f (fetch_window-AllFetched reader expected first last fetched q) in
              let same : whole ≡ fetch_heights R reader expected h h hs more =
                rw (fetch_heights, e, f) refl in
              subst AllFetched (sym same)
                (fetch_heights-AllFetched reader expected h h hs more kept)
        ]
      ]

  fetch_all-AllFetched :
      (reader : Reader R) (expected heights : List ℕ)
      → AllFetched (fetch_all R reader expected heights)
  unfolding fetch_all
  fetch_all-AllFetched reader expected [] = tt
  fetch_all-AllFetched reader expected (h ∷ hs) =
      fetch_heights-AllFetched reader expected h h hs [] tt

  promote_entries-All :
      (chosen : BtreeMap ℕ) (fetched : BtreeMap Entry) (s : Streamer R)
      → AllValues P fetched
      → All P s.queue
      → All P (promote_entries R chosen fetched s).queue
  unfolding promote_entries
  promote_entries-All [] fetched s v q = q
  promote_entries-All ((seq, height) ∷ rest) fetched s v q =
      let Kept = λ (t : Streamer R). All P t.queue in
      let whole = promote_entries R ((seq, height) ∷ rest) fetched s in
      elim (Option-cases (get seq fetched)) [
        | inl e ↦
            let same : whole ≡ promote_entries R rest fetched s = rw (promote_entries, e) refl in
            subst Kept (sym same) (promote_entries-All rest fetched s v q)
        | inr (entry, e) ↦
            let next : Streamer R = record s {
              queue = insert_sorted R seq entry s.queue;
              stubs = remove seq s.stubs;
            } in
            elim (Bool-cases (hotshot_height entry == height)) [
              | inl f ↦
                  let same : whole ≡ promote_entries R rest (remove seq fetched) next =
                    rw (promote_entries, e, f) refl in
                  subst Kept (sym same) (
                    promote_entries-All rest (remove seq fetched) next
                      (remove-AllValues P seq fetched v)
                      (insert_sorted-All seq entry s.queue (get-AllValues P seq fetched entry v e)
                        q))
              | inr f ↦
                  let same : whole ≡ s = rw (promote_entries, e, f) refl in subst Kept (sym same) q
            ]
      ]

  promote_chosen-All :
      (reader : Reader R) (chosen : BtreeMap ℕ) (s : Streamer R)
      → All P s.queue
      → All P (promote_chosen R reader chosen s).queue
  unfolding promote_chosen
  promote_chosen-All reader chosen s q =
      let Kept = λ (t : Streamer R). All P t.queue in
      let whole = promote_chosen R reader chosen s in
      elim (Option-cases (fetch_all R reader (keys chosen) (heights_of chosen))) [
        | inl e ↦ let same : whole ≡ s = rw (promote_chosen, e) refl in subst Kept (sym same) q
        | inr (fetched, e) ↦
            let values : AllValues P fetched =
              subst AllFetched e (fetch_all-AllFetched reader (keys chosen) (heights_of chosen)) in
            let same : whole ≡ promote_entries R chosen fetched s = rw (promote_chosen, e) refl in
            subst Kept (sym same) (promote_entries-All chosen fetched s values q)
      ]

  promote_stubs-All :
      (reader : Reader R) (s : Streamer R) → All P s.queue → All P (promote_stubs R reader s).queue
  unfolding promote_stubs
  promote_stubs-All reader s q =
      let room = s.config.max_full_queue_entries - length s.queue in
      let chosen = take (min room (length s.stubs)) s.stubs in
      if_either (λ (t : Streamer R). All P t.queue) (room == 0 || is_empty s.stubs) s
        (promote_chosen R reader chosen s) q (promote_chosen-All reader chosen s q)

  handle_finalization-All :
      (reader : Reader R) (idx : ℕ) (s : Streamer R)
      → All P s.queue
      → All P (handle_finalization R reader idx s).queue
  unfolding handle_finalization prune
  handle_finalization-All reader idx s q =
      let moved : Streamer R = (record s {
        last_broadcast_position =
            if ltb s.last_broadcast_position idx then idx else s.last_broadcast_position;
      }) in
      if_either (λ (t : Streamer R). All P t.queue) (leb idx s.finalized_idx) moved
        (promote_stubs R reader (prune R idx moved)) q
        (promote_stubs-All reader (prune R idx moved) (All-drop P _ s.queue q))

  broadcast_entries-queue :
      (es : List Entry) (b : Broadcast R)
      → (broadcast_entries R es b).streamer.queue ≡ b.streamer.queue
  unfolding broadcast_entries
  broadcast_entries-queue [] b = refl
  broadcast_entries-queue (e ∷ es) b =
      let queue_of = λ (t : Broadcast R). t.streamer.queue in
      elim (Bool-cases b.sender.closed) [
        | inl c ↦ ap queue_of (entries_closed R e es b c)
        | inr c ↦ elim (Bool-cases (b.sender.room == 0)) [
          | inl f ↦ ap queue_of (entries_full R e es b c f)
          | inr f ↦
              ap queue_of (broadcast_entries_step R e es b c f)
              ∙ broadcast_entries-queue es (took R e b)
        ]
      ]

  broadcast-All :
      (b : Broadcast R)
      → All P b.streamer.queue
      → All P (try_broadcast_feed_message R b).streamer.queue
  unfolding try_broadcast_feed_message
  broadcast-All b q = subst (All P) (sym (broadcast_entries-queue _ b)) q

  step-All :
      (event : Event R) (s : Loop R)
      → All P s.broadcast.streamer.queue
      → All P (step R event s).broadcast.streamer.queue
  unfolding step handle_hotshot_transactions
  step-All (finalized reader idx) s q = handle_finalization-All reader idx s.broadcast.streamer q
  step-All (batch_received batch_data fetched) s q = q
  step-All (transactions_received transactions height) s q = broadcast-All _ (
      filter_messages-All (parse_hotshot_transactions transactions height) s.broadcast.streamer
        (parsed transactions height) q)
  step-All retry_received s q = broadcast-All _ q
  step-All (relay_took n) s q = q
  step-All relay_closed s q = q

  -- What holds of each entry that is parsed from HotShot transactions holds of each entry in the queue,
  -- in any run of the loop and for any answers of the reader.
  pub Reaches-All :
      (config : StreamerConfig) (finalized_idx capacity : ℕ) (t : Loop R)
      → Reaches R (start R config finalized_idx capacity) t
      → All P t.broadcast.streamer.queue
  unfolding start new
  Reaches-All config finalized_idx capacity t here = tt
  Reaches-All config finalized_idx capacity t (then_step {t = u} event admissible r) =
      step-All event u (Reaches-All config finalized_idx capacity u r)
