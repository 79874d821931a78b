-- ===== src/Streamer/Run/Order.antt =====
-- streamer/streamer.rs: over any run the invariant holds, and the feed messages go out in order, none
-- of them twice.
use mathlib.Core.List.{append_assoc, append-nil}
use chain_adjacent_service.Prelude.{
  ◌==◌, Bool-cases, ℕ, suc, ◌+◌, ◌≤◌, ◌<◌, ◌≡◌, refl, sym, ap, ◌∙◌, subst, inl, inr, true, false,
  List, [], ◌∷◌, ◌++◌, arith,
}
use chain_adjacent_service.Prelude.Words.{u64}
use chain_adjacent_service.Rollup.{Rollup}
use chain_adjacent_service.Config.{StreamerConfig}
use chain_adjacent_service.BtreeMap.{
  IncreasingFrom, IsIncreasing, member, IncreasingFrom-mono, keys,
}
use chain_adjacent_service.Streamer.{
  BroadcastRetry, schedule, Broadcast, new, contiguous, find_contiguous_entries_after,
  broadcast_entries, try_broadcast_feed_message, seqs, filter_messages,
}
use chain_adjacent_service.Streamer.Invariant.{Inv}
use chain_adjacent_service.Streamer.Contiguous.{drop_above}
use chain_adjacent_service.Streamer.Filter.{filter_messages-Keeps, filter_messages-Inv}
use chain_adjacent_service.Streamer.Finalization.{handle_finalization-Finalizes}
use chain_adjacent_service.Streamer.Sending.{messages, took, broadcast_entries_step}
use chain_adjacent_service.Streamer.Run.{
  Event, finalized, batch_received, transactions_received, retry_received, relay_took, relay_closed,
  Loop, handle_hotshot_transactions, step, Admissible, Reaches, here, then_step, start,
}

module _ (R : Rollup) where
  open R use {Entry, sequence_number}

  -- Entries in increasing order, later than `p` and not later than `q`.
  abbrev pub Between : ℕ → List Entry → ℕ → Type 0
  Between p [] q = p ≤ q
  Between p (e ∷ es) q = (p < sequence_number e) × Between (sequence_number e) es q

  Between-append :
      (p q r : ℕ) (es fs : List Entry) → Between p es q → Between q fs r → Between p (es ++ fs) r
  Between-append p q r [] [] h k = omega (arith, h, k)
  Between-append p q r [] (f ∷ fs) h k = (omega (arith, h, k.0), k.1)
  Between-append p q r (e ∷ es) fs h k = (h.0, Between-append (sequence_number e) q r es fs h.1 k)

  messages_append : (es fs : List Entry) → messages R (es ++ fs) ≡ messages R es ++ messages R fs
  messages_append [] fs = refl
  messages_append (e ∷ es) fs =
      ap (λ l. R.convert_entry_to_feed_message e ∷ l) (messages_append es fs)

  -- What one broadcast or a whole run has sent.
  abbrev pub Sends : Broadcast R → Broadcast R → Type 0
  Sends s t =
      (es : List Entry) × (t.sender.sent ≡ s.sender.sent ++ messages R es)
      × Between s.streamer.last_broadcast_position es t.streamer.last_broadcast_position

  Sends-trans : (s t u : Broadcast R) → Sends s t → Sends t u → Sends s u
  Sends-trans s t u (es, a, b) (fs, c, d) = (
    es ++ fs,
    c
        ∙ ap (λ l. l ++ messages R fs) a
        ∙ append_assoc s.sender.sent (messages R es) (messages R fs)
        ∙ ap (λ l. s.sender.sent ++ l) (sym (messages_append es fs)),
    Between-append s.streamer.last_broadcast_position t.streamer.last_broadcast_position
        u.streamer.last_broadcast_position es fs b d,
  )

  -- A broadcast changes the position alone of the streamer.
  abbrev pub Same : Broadcast R → Broadcast R → Type 0
  Same s t =
      (t.streamer.queue ≡ s.streamer.queue)
      × (t.streamer.stubs ≡ s.streamer.stubs)
      × (t.streamer.config ≡ s.streamer.config)

  stays : (b : Broadcast R) (r : BroadcastRetry) → Sends b (record b { retry = r })
  stays b r = ([], sym (append-nil b.sender.sent), omega arith)

  pub entries_closed :
      (e : Entry) (es : List Entry) (b : Broadcast R)
      → b.sender.closed ≡ true
      → broadcast_entries R (e ∷ es) b ≡ b
  unfolding broadcast_entries
  entries_closed e es b h = ground arith

  pub entries_full :
      (e : Entry) (es : List Entry) (b : Broadcast R)
      → b.sender.closed ≡ false
      → (b.sender.room == 0) ≡ true
      → broadcast_entries R (e ∷ es) b ≡ (record b { retry = schedule b.retry })
  unfolding broadcast_entries
  entries_full e es b h k = ground arith

  broadcast_entries-Sends :
      (es : List Entry) (b : Broadcast R)
      → IncreasingFrom (b.streamer.last_broadcast_position + 1) (seqs R es)
      → Sends b (broadcast_entries R es b) × Same b (broadcast_entries R es b)
  unfolding broadcast_entries
  broadcast_entries-Sends [] b i = (stays b b.retry, (refl, refl, refl))
  broadcast_entries-Sends (e ∷ es) b i =
      let to = λ (t : Broadcast R). Sends b t × Same b t in
      elim (Bool-cases b.sender.closed) [
        | inl c ↦ subst to (sym (entries_closed e es b c)) (stays b b.retry, (refl, refl, refl))
        | inr c ↦ elim (Bool-cases (b.sender.room == 0)) [
          | inl f ↦
              subst to (sym (entries_full e es b c f))
                (stays b (schedule b.retry), (refl, refl, refl))
          | inr f ↦
              let later =
                IncreasingFrom-mono (sequence_number e + 1) (suc (sequence_number e)) (seqs R es)
                  (omega arith) i.1 in
              let ((fs, sent, ordered), same) = broadcast_entries-Sends es (took R e b) later in
              subst to (sym (broadcast_entries_step R e es b c f)) (
                (
                  e ∷ fs,
                  sent ∙ append_assoc b.sender.sent _ (messages R fs),
                  (omega (arith, i.0), ordered),
                ),
                same,
              )
        ]
      ]

  contiguous-IncreasingFrom :
      (last_pos idx n : ℕ) (es : List Entry)
      → IncreasingFrom n (seqs R es)
      → IncreasingFrom n (seqs R (contiguous R last_pos idx es))
  unfolding contiguous
  contiguous-IncreasingFrom last_pos idx n [] i = tt
  contiguous-IncreasingFrom last_pos idx n (e ∷ es) i =
      elim (Bool-cases (sequence_number e == u64 (last_pos + idx + 1))) [
        | inl h ↦
            rw (h, contiguous)
              (i.0, contiguous-IncreasingFrom last_pos (idx + 1) (suc (sequence_number e)) es i.1)
        | inr h ↦ rw (h, contiguous) tt
      ]

  pub try_broadcast-Sends :
      (b : Broadcast R)
      → IsIncreasing (seqs R b.streamer.queue)
      → Sends b (try_broadcast_feed_message R b) × Same b (try_broadcast_feed_message R b)
  unfolding try_broadcast_feed_message find_contiguous_entries_after
  try_broadcast-Sends b i = broadcast_entries-Sends _ b (
      contiguous-IncreasingFrom b.streamer.last_broadcast_position 0
        (b.streamer.last_broadcast_position + 1) _
        (drop_above R b.streamer.last_broadcast_position 0 b.streamer.queue i))

  pub kept-Inv : (s t : Broadcast R) → Same s t → Inv R s.streamer → Inv R t.streamer
  kept-Inv s t (q, k, c) v = record {
    queue_sorted = subst (λ x. IsIncreasing (seqs R x)) (sym q) v.queue_sorted;
    stubs_sorted = subst (λ x. IsIncreasing (keys x)) (sym k) v.stubs_sorted;
    disjoint = λ n. rw (q, k) (v.disjoint n);
    capped = rw (q, c) v.capped;
  }

  step-Inv :
      (e : Event R) (s : Loop R)
      → Admissible R e
      → Inv R s.broadcast.streamer
      → Inv R (step R e s).broadcast.streamer × Sends s.broadcast (step R e s).broadcast
  unfolding step handle_hotshot_transactions
  step-Inv (finalized reader idx) s a v =
      let f = handle_finalization-Finalizes R reader idx s.broadcast.streamer v a in
      (f.inv, ([], sym (append-nil s.broadcast.sender.sent), omega (arith, f.position)))
  step-Inv (batch_received batch_data fetched) s a v = (v, stays s.broadcast s.broadcast.retry)
  step-Inv (transactions_received transactions height) s a v =
      let es = R.parse_hotshot_transactions transactions height in
      let filtered = filter_messages R es s.broadcast.streamer in
      let b : Broadcast R = record s.broadcast { streamer = filtered } in
      let v' = filter_messages-Inv R es s.broadcast.streamer v in
      let ((fs, sent, ordered), same) = try_broadcast-Sends b v'.queue_sorted in
      (
        kept-Inv b (try_broadcast_feed_message R b) same v',
        (
          fs,
          sent,
          subst
              (λ p. Between p fs (try_broadcast_feed_message R b).streamer.last_broadcast_position)
              (filter_messages-Keeps R es s.broadcast.streamer).2 ordered,
        ),
      )
  step-Inv retry_received s a v =
      let b : Broadcast R = record s.broadcast {
        retry = record s.broadcast.retry { scheduled = false };
      } in
      let (sends, same) = try_broadcast-Sends b v.queue_sorted in
      (kept-Inv b (try_broadcast_feed_message R b) same v, sends)
  step-Inv (relay_took n) s a v = (v, ([], sym (append-nil s.broadcast.sender.sent), omega arith))
  step-Inv relay_closed s a v = (v, ([], sym (append-nil s.broadcast.sender.sent), omega arith))

  -- In any run, whatever the order of the events is and whatever the reader, the fetcher and the relay
  -- do, the queue and the stubs stay in order, disjoint and within the limit, and what the run has
  -- sent to the relay are the messages of entries in strictly increasing order, all later than the
  -- position at its start and not later than the one at its end: none is sent twice.
  pub Reaches-Sends :
      (s t : Loop R)
      → Inv R s.broadcast.streamer
      → Reaches R s t
      → Inv R t.broadcast.streamer × Sends s.broadcast t.broadcast
  Reaches-Sends s t v here = (v, stays s.broadcast s.broadcast.retry)
  Reaches-Sends s t v (then_step {t = u} e a r) =
      let (w, sends) = Reaches-Sends s u v r in
      let (w', more) = step-Inv e u a w in
      (w', Sends-trans s.broadcast u.broadcast (step R e u).broadcast sends more)

  -- The state that `run` starts with keeps the invariant.
  pub start-Inv :
      (config : StreamerConfig) (finalized_idx capacity : ℕ)
      → Inv R (start R config finalized_idx capacity).broadcast.streamer
  unfolding start new member
  start-Inv config finalized_idx capacity = record {
    queue_sorted = tt;
    stubs_sorted = tt;
    disjoint = λ k. refl;
    capped = omega arith;
  }
