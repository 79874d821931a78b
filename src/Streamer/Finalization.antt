-- ===== src/Streamer/Finalization.antt =====
-- `promote_stubs` and `handle_finalization` as a whole, for every reader.
use chain_adjacent_service.Prelude.{
  is_empty, ltb, leb, ◌==◌, if◌then◌else◌, Bool-cases, Option-cases, length, take, length-take, ℕ,
  suc, ◌+◌, ◌-◌, ◌≤◌, ◌<◌, min, max, ◌≡◌, refl, ◌∙◌, inl, inr, true, ◌&&◌, ◌||◌, List, [], ◌∷◌,
  arith,
}
use chain_adjacent_service.Prelude.Words.{IsU64}
use chain_adjacent_service.Rollup.{Rollup}
use chain_adjacent_service.BtreeMap.{member, BtreeMap, keys, get, remove}
use chain_adjacent_service.BtreeMap.Laws.{member-split_off, split_off-IncreasingFrom}
use chain_adjacent_service.Streamer.{Streamer}
use chain_adjacent_service.Streamer.Promote.{
  heights_of, Reader, fetch_all, promote_entries, promote_chosen, promote_stubs, prune,
  handle_finalization,
}
use chain_adjacent_service.Streamer.Queue.{
  length-insert_sorted, member-drop_finalized, drop_finalized-IncreasingFrom, length-drop_finalized,
}
use chain_adjacent_service.Streamer.Invariant.{stubbed, tracked, Inv}
use chain_adjacent_service.Streamer.Promotion.{
  Chosen, remove-Chosen, take-Chosen, Keyed, get-Keyed, remove-Keyed, KeyedIfSome,
  fetch_heights-Keyed, promoted, tracked-promoted, promoted-Inv, Promotes,
}

module _ (R : Rollup) where
  open R use {Entry, sequence_number, hotshot_height}

  Promotes-refl : (s : Streamer R) → Inv R s → Promotes R s s
  Promotes-refl s v = record { inv = v; same_tracked = λ k. refl; keeps = (refl, refl, refl) }

  Promotes-trans : (s t u : Streamer R) → Promotes R s t → Promotes R t u → Promotes R s u
  Promotes-trans s t u p q = record {
    inv = q.inv;
    same_tracked = λ k. q.same_tracked k ∙ p.same_tracked k;
    keeps = ground arith;
  }

  promoted-Promotes :
      (seq : ℕ) (e : Entry) (s : Streamer R)
      → Inv R s
      → sequence_number e ≡ seq
      → stubbed R seq s ≡ true
      → length s.queue < s.config.max_full_queue_entries
      → Promotes R s (promoted R seq e s)
  promoted-Promotes seq e s v h here room = record {
    inv = promoted-Inv R seq e s v h here room;
    same_tracked = λ k. tracked-promoted R k seq e s v h here;
    keeps = (refl, refl, refl);
  }

  promote_entries-Promotes :
      (n : ℕ) (rest : BtreeMap ℕ) (fetched : BtreeMap Entry) (s : Streamer R)
      → Inv R s
      → Keyed R fetched
      → Chosen n rest s.stubs
      → length s.queue + length rest ≤ s.config.max_full_queue_entries
      → Promotes R s (promote_entries R rest fetched s)
  unfolding promote_entries
  promote_entries-Promotes n [] fetched s v ks c room = Promotes-refl s v
  promote_entries-Promotes n ((seq, h) ∷ rest) fetched s v ks c room =
      elim (Option-cases (get seq fetched)) [
        | inl e ↦
            rw (e, promote_entries)
              (promote_entries-Promotes (suc seq) rest fetched s v ks c.2 (omega arith))
        | inr (x, e) ↦ elim (Bool-cases (hotshot_height x == h)) [
          | inr differs ↦ rw (e, differs, promote_entries) (Promotes-refl s v)
          | inl same ↦
              let step =
                promoted-Promotes seq x s v (get-Keyed R seq x fetched ks e) c.1 (omega arith) in
              rw (e, same, promote_entries)
                (Promotes-trans s (promoted R seq x s) _ step (
                  promote_entries-Promotes (suc seq) rest (remove seq fetched) (promoted R seq x s)
                    step.inv (remove-Keyed R seq fetched ks)
                    (remove-Chosen seq (suc seq) rest s.stubs (omega arith) v.stubs_sorted c.2)
                    (omega (arith, room, length-insert_sorted R seq x s.queue))))
        ]
      ]

  fetch_all-Keyed :
      (reader : Reader R) (expected hs : List ℕ) → KeyedIfSome R (fetch_all R reader expected hs)
  unfolding fetch_all
  fetch_all-Keyed reader expected [] = tt
  fetch_all-Keyed reader expected (h ∷ hs) = fetch_heights-Keyed R reader expected h h hs [] tt

  promote_chosen-Promotes :
      (reader : Reader R) (chosen : BtreeMap ℕ) (s : Streamer R)
      → Inv R s
      → Chosen 0 chosen s.stubs
      → length s.queue + length chosen ≤ s.config.max_full_queue_entries
      → Promotes R s (promote_chosen R reader chosen s)
  unfolding promote_chosen
  promote_chosen-Promotes reader chosen s v c room =
      elim (Option-cases (fetch_all R reader (keys chosen) (heights_of chosen))) [
        | inl e ↦ rw (e, promote_chosen) (Promotes-refl s v)
        | inr (fetched, e) ↦
            rw (e, promote_chosen)
              (promote_entries-Promotes 0 chosen fetched s v
                (rw e at (fetch_all-Keyed reader (keys chosen) (heights_of chosen))) c room)
      ]

  -- Whatever the reader answers, a promotion keeps the invariant and every tracked sequence number.
  pub promote_stubs-Promotes :
      (reader : Reader R) (s : Streamer R) → Inv R s → Promotes R s (promote_stubs R reader s)
  unfolding promote_stubs
  promote_stubs-Promotes reader s v =
      let room = s.config.max_full_queue_entries - length s.queue in
      elim (Bool-cases (room == 0 || is_empty s.stubs)) [
        | inl e ↦ rw (e, promote_stubs) (Promotes-refl s v)
        | inr e ↦
            rw (e, promote_stubs)
              (promote_chosen-Promotes reader (take (min room (length s.stubs)) s.stubs) s v
                (take-Chosen (min room (length s.stubs)) 0 s.stubs s.stubs v.stubs_sorted
                  (λ k h. h))
                (omega (arith, v.capped, length-take (min room (length s.stubs)) s.stubs)))
      ]

  tracked-prune :
      (k idx : ℕ) (s : Streamer R)
      → Inv R s
      → IsU64 idx
      → IsU64 k
      → tracked R k (prune R idx s) ≡ (ltb idx k && tracked R k s)
  unfolding prune member
  tracked-prune k idx s v h hk = ground (
    arith,
    member-drop_finalized R k idx 0 s.queue v.queue_sorted,
    member-split_off k (idx + 1) 0 s.stubs v.stubs_sorted,
  )

  prune-Inv : (idx : ℕ) (s : Streamer R) → Inv R s → Inv R (prune R idx s)
  unfolding prune member
  prune-Inv idx s v = record {
    queue_sorted = drop_finalized-IncreasingFrom R idx 0 s.queue v.queue_sorted;
    stubs_sorted = ground (arith, split_off-IncreasingFrom 0 (idx + 1) s.stubs v.stubs_sorted);
    disjoint = λ k. ground (
      arith,
      v.disjoint k,
      member-drop_finalized R k idx 0 s.queue v.queue_sorted,
      member-split_off k (idx + 1) 0 s.stubs v.stubs_sorted,
    );
    capped = omega (arith, v.capped, length-drop_finalized R idx s.queue);
  }

  -- What a finalization index does to the streamer: the sequence numbers up to an index that
  -- advances are forgotten and all others kept, and both positions only move forward.
  pub record Finalizes (idx : ℕ) (s t : Streamer R) : Type 0 where
    pub inv : Inv R t
    pub kept :
        (k : ℕ)
        → IsU64 k
        → tracked R k t ≡ (tracked R k s && (leb idx s.finalized_idx || ltb idx k))
    pub finalized : t.finalized_idx ≡ max s.finalized_idx idx
    pub position : t.last_broadcast_position ≡ max s.last_broadcast_position idx
    pub config : t.config ≡ s.config

  abbrev advance : ℕ → Streamer R → Streamer R
  advance idx s = record s {
    last_broadcast_position =
        if ltb s.last_broadcast_position idx then idx else s.last_broadcast_position;
  }

  advance-Inv : (idx : ℕ) (s : Streamer R) → Inv R s → Inv R (advance idx s)
  advance-Inv idx s v = record {
    queue_sorted = v.queue_sorted;
    stubs_sorted = v.stubs_sorted;
    disjoint = v.disjoint;
    capped = v.capped;
  }

  -- A finalization index forgets the sequence numbers that it finalizes and no other, for every
  -- answer of the reader, and keeps the invariant; an index that does not advance forgets nothing.
  pub handle_finalization-Finalizes :
      (reader : Reader R) (idx : ℕ) (s : Streamer R)
      → Inv R s
      → IsU64 idx
      → Finalizes idx s (handle_finalization R reader idx s)
  unfolding handle_finalization prune
  handle_finalization-Finalizes reader idx s v h = elim (Bool-cases (leb idx s.finalized_idx)) [
    | inl old ↦
        rw (old, handle_finalization)
          (record {
            inv = advance-Inv idx s v;
            kept = λ k hk. ground arith;
            finalized = ground arith;
            position = ground arith;
            config = refl;
          })
    | inr ahead ↦
        let pruned = prune R idx (advance idx s) in
        let p = promote_stubs-Promotes reader pruned (prune-Inv idx _ (advance-Inv idx s v)) in
        rw (ahead, handle_finalization)
          (record {
            inv = p.inv;
            kept = λ k hk. ground (
              arith,
              p.same_tracked k,
              tracked-prune k idx (advance idx s) (advance-Inv idx s v) h hk,
            );
            finalized = ground (arith, p.keeps);
            position = ground (arith, p.keeps);
            config = ground (arith, p.keeps);
          })
  ]
