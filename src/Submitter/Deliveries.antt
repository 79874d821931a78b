-- ===== src/Submitter/Deliveries.antt =====
-- submitter/submitter.rs: what a run of `submit_transactions` has submitted.
use chain_adjacent_service.Prelude.{
  Bool, ℕ, zero, suc, Option, none, some, List, [], ◌∷◌, ◌++◌, ◌≡◌, refl, sym, ap, subst, ◌∙◌,
}
use mathlib.Core.List.{append_assoc, append-nil}
use chain_adjacent_service.Submitter.{channel_closed, continues, turn_of, submit_transactions}
use chain_adjacent_service.Submitter.Rounds.{
  concat, transactions_of, State, Runs, here, then_arrives, then_closes, then_ends, then_round,
  waiting_list, held, state_of, after, RoundAccounts, RoundAccounts-turn_of,
}

module _ (Msg Transaction : Type 0) (tx_ctor : List Msg → List Transaction) where
  -- What the batches of a run account for.
  abbrev pub Accounts :
      State Msg Transaction tx_ctor
      → List Msg
      → State Msg Transaction tx_ctor
      → List (List Msg)
      → Type 0
  Accounts s arrived t batches =
      (s.unsubmitted_msgs ++ arrived ≡ concat batches ++ t.unsubmitted_msgs)
      × (held Msg Transaction tx_ctor t
          ≡ held Msg Transaction tx_ctor s ++ transactions_of Msg Transaction tx_ctor batches)

  concat-append : (xs ys : List (List Msg)) → concat (xs ++ ys) ≡ concat xs ++ concat ys
  concat-append [] ys = refl
  concat-append (x ∷ xs) ys =
      ap (λ zs. x ++ zs) (concat-append xs ys) ∙ sym (append_assoc x (concat xs) (concat ys))

  transactions_of-append :
      (xs ys : List (List Msg))
      → transactions_of Msg Transaction tx_ctor (xs ++ ys)
        ≡ transactions_of Msg Transaction tx_ctor xs ++ transactions_of Msg Transaction tx_ctor ys
  transactions_of-append [] ys = refl
  transactions_of-append (x ∷ xs) ys =
      ap (λ zs. tx_ctor x ++ zs) (transactions_of-append xs ys)
      ∙ sym (
          append_assoc (tx_ctor x) (transactions_of Msg Transaction tx_ctor xs)
            (transactions_of Msg Transaction tx_ctor ys))

  Accounts-round :
      (s t u : State Msg Transaction tx_ctor) (arrived : List Msg) (batches : List (List Msg))
      → Accounts s arrived t batches
      → submit_transactions Msg Transaction tx_ctor t ≡ continues u
      → (more : List (List Msg)) × Accounts s arrived u (batches ++ more)
  unfolding submit_transactions
  Accounts-round s t u arrived batches (read, made) e =
      let (more, cut, kept) =
        subst (RoundAccounts Msg Transaction tx_ctor t) (ap (after Msg Transaction tx_ctor t) e) (
          RoundAccounts-turn_of Msg Transaction tx_ctor t.unsubmitted_txs t.unsubmitted_msgs
            t.closed t.waiting t.permits t.running t.spawned) in
      (
        more,
        (
          read
              ∙ ap (λ ys. concat batches ++ ys) cut
              ∙ sym (append_assoc (concat batches) (concat more) u.unsubmitted_msgs)
              ∙ ap (λ ys. ys ++ u.unsubmitted_msgs) (sym (concat-append batches more)),
          kept
              ∙ ap (λ ys. ys ++ transactions_of Msg Transaction tx_ctor more) made
              ∙ append_assoc (held Msg Transaction tx_ctor s)
                  (transactions_of Msg Transaction tx_ctor batches)
                  (transactions_of Msg Transaction tx_ctor more)
              ∙ ap (λ ys. held Msg Transaction tx_ctor s ++ ys)
                  (sym (transactions_of-append batches more)),
        ),
      )

  -- In any run, whenever messages arrive and tasks end, the messages of the channel are cut into batches
  -- in their order, and the transactions that `tx_ctor` makes of the batches are each given to a task,
  -- or wait for a permit, or are still in the queue, in order: none is lost and none is made twice.
  pub Runs-Accounts :
      (s t : State Msg Transaction tx_ctor) (arrived : List Msg)
      → Runs Msg Transaction tx_ctor s arrived t
      → (batches : List (List Msg)) × Accounts s arrived t batches
  Runs-Accounts s t _ here =
      ([], (append-nil s.unsubmitted_msgs, sym (append-nil (held Msg Transaction tx_ctor s))))
  Runs-Accounts s t _ (then_arrives {arrived} {v} m still_open r) =
      let (batches, (read, made)) = Runs-Accounts s v arrived r in
      (
        batches,
        (
          sym (append_assoc s.unsubmitted_msgs arrived (m ∷ []))
              ∙ ap (λ ys. ys ++ m ∷ []) read
              ∙ append_assoc (concat batches) v.unsubmitted_msgs (m ∷ []),
          made,
        ),
      )
  Runs-Accounts s t arrived (then_closes {v} r) = Runs-Accounts s v arrived r
  Runs-Accounts s t arrived (then_ends {v} others held_one r) = Runs-Accounts s v arrived r
  Runs-Accounts s t arrived (then_round {v} r e) =
      let (batches, accounts) = Runs-Accounts s v arrived r in
      let (more, both) = Accounts-round s v t arrived batches accounts e in (batches ++ more, both)

  closed-turn_of :
      (txs : List Transaction) (ms : List Msg) (closed : Bool) (waiting : Option Transaction)
      (permits running : ℕ) (spawned : List Transaction)
      → turn_of Msg Transaction tx_ctor waiting
          (state_of Msg Transaction tx_ctor txs ms closed waiting permits running spawned)
        ≡ channel_closed
      → (txs ≡ []) × (ms ≡ []) × (waiting ≡ none)
  closed-turn_of [] [] closed none permits running spawned e = (refl, refl, refl)
  closed-turn_of [] (m ∷ ms) closed none permits running spawned e = absurd (cc)
  closed-turn_of (tx ∷ txs) ms closed none permits running spawned e = absurd (cc)
  closed-turn_of txs ms closed (some tx) zero running spawned e = absurd (cc)
  closed-turn_of txs ms closed (some tx) (suc n) running spawned e = absurd (cc)

  -- When the loop ends with `ChannelClosed`, every message that the channel ever had is in a batch, in
  -- order, and every transaction that was held at the start or is of the batches was given to a task, in
  -- order.
  pub Runs-closed :
      (s t : State Msg Transaction tx_ctor) (arrived : List Msg)
      → Runs Msg Transaction tx_ctor s arrived t
      → submit_transactions Msg Transaction tx_ctor t ≡ channel_closed
      → (batches : List (List Msg)) × ((s.unsubmitted_msgs ++ arrived ≡ concat batches)
          × (t.spawned
              ≡ held Msg Transaction tx_ctor s ++ transactions_of Msg Transaction tx_ctor batches))
  unfolding submit_transactions
  Runs-closed s t arrived r e =
      let (batches, (read, made)) = Runs-Accounts s t arrived r in
      let (no_txs, no_msgs, none_waits) =
        closed-turn_of t.unsubmitted_txs t.unsubmitted_msgs t.closed t.waiting t.permits t.running
          t.spawned e in
      (
        batches,
        (
          read ∙ ap (λ ys. concat batches ++ ys) no_msgs ∙ append-nil (concat batches),
          sym (append-nil t.spawned)
              ∙ ap (λ ys. t.spawned ++ ys) (sym no_txs)
              ∙ ap (λ w. t.spawned ++ (waiting_list Msg Transaction tx_ctor w ++ t.unsubmitted_txs))
                  (sym none_waits)
              ∙ made,
        ),
      )
