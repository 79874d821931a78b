-- ===== src/Submitter/Draining.antt =====
-- submitter/submitter.rs: the loop of `submit_transactions` leaves no transaction behind while tasks end.
use chain_adjacent_service.Prelude.{
  Bool, ℕ, zero, suc, ◌+◌, ◌<◌, Option, none, some, List, [], ◌∷◌, ◌++◌, ◌≡◌, refl, sym, ap, subst,
  ◌∙◌, arith,
}
use mathlib.Core.List.{append_assoc, append-nil}
use chain_adjacent_service.Submitter.{extend, pop_front, submit_transactions}
use chain_adjacent_service.Submitter.Rounds.{
  transactions_of, State, Runs, here, then_ends, then_round, batch, transactions_of-batch,
  waiting_list, held, state_of,
}

module _ (Msg Transaction : Type 0) (tx_ctor : List Msg → List Transaction) where
  -- A run without messages that leaves nothing in the channel or the queue, and nothing that waits.
  abbrev pub Drains : State Msg Transaction tx_ctor → List Transaction → Type 0
  Drains s submitted =
      (t : State Msg Transaction tx_ctor) × ((Runs Msg Transaction tx_ctor s [] t)
        × (t.unsubmitted_msgs ≡ [])
        × (t.unsubmitted_txs ≡ [])
        × (t.waiting ≡ none)
        × (t.spawned ≡ submitted))

  -- The task that waits is started, at once or when a task ends.
  started :
      (s : State Msg Transaction tx_ctor) (txs : List Transaction) (ms : List Msg) (closed : Bool)
      (tx : Transaction) (permits running : ℕ) (spawned : List Transaction)
      → 0 < permits + running
      → Runs Msg Transaction tx_ctor s []
          (state_of Msg Transaction tx_ctor txs ms closed (some tx) permits running spawned)
      → (n : ℕ) × (m : ℕ) × (0 < n + m)
        × Runs Msg Transaction tx_ctor s []
            (state_of Msg Transaction tx_ctor txs ms closed none n m (spawned ++ tx ∷ []))
  unfolding submit_transactions
  started s txs ms closed tx (suc n) running spawned h r =
      (n, running + 1, omega arith, then_round r refl)
  started s txs ms closed tx zero (suc m) spawned h r =
      (0, m + 1, omega arith, then_round (then_ends m refl r) refl)
  started s txs ms closed tx zero zero spawned h r = absurd (omega (arith, h))

  Drains-txs :
      (s : State Msg Transaction tx_ctor) (txs : List Transaction) (closed : Bool)
      (permits running : ℕ) (spawned : List Transaction)
      → 0 < permits + running
      → Runs Msg Transaction tx_ctor s []
          (state_of Msg Transaction tx_ctor txs [] closed none permits running spawned)
      → Drains s (spawned ++ txs)
  unfolding submit_transactions
  Drains-txs s [] closed permits running spawned h r = (
    state_of Msg Transaction tx_ctor [] [] closed none permits running spawned,
    (r, refl, refl, refl, sym (append-nil spawned)),
  )
  Drains-txs s (tx ∷ txs) closed permits running spawned h r =
      let (n, m, h', r') =
        started s txs [] closed tx permits running spawned h (then_round r refl) in
      subst (Drains s) (append_assoc spawned (tx ∷ []) txs)
        (Drains-txs s txs closed n m (spawned ++ tx ∷ []) h' r')

  Drains-pop_front :
      (s : State Msg Transaction tx_ctor) (l txs : List Transaction) (ms : List Msg) (closed : Bool)
      (permits running : ℕ) (spawned : List Transaction)
      → 0 < permits + running
      → Runs Msg Transaction tx_ctor s [] (
          pop_front Msg Transaction tx_ctor l
            (state_of Msg Transaction tx_ctor txs ms closed none permits running spawned))
      → Drains s (spawned ++ l)
  Drains-pop_front s [] txs ms closed permits running spawned h r =
      Drains-txs s [] closed permits running spawned h r
  Drains-pop_front s (tx ∷ l) txs ms closed permits running spawned h r =
      let (n, m, h', r') = started s l [] closed tx permits running spawned h r in
      subst (Drains s) (append_assoc spawned (tx ∷ []) l)
        (Drains-txs s l closed n m (spawned ++ tx ∷ []) h' r')

  Drains-receive :
      (s : State Msg Transaction tx_ctor) (txs : List Transaction) (ms : List Msg) (closed : Bool)
      (permits running : ℕ) (spawned : List Transaction)
      → 0 < permits + running
      → Runs Msg Transaction tx_ctor s []
          (state_of Msg Transaction tx_ctor txs ms closed none permits running spawned)
      → Drains s (spawned ++ extend Msg Transaction tx_ctor txs ms)
  unfolding submit_transactions
  Drains-receive s [] [] closed permits running spawned h r =
      Drains-txs s [] closed permits running spawned h r
  Drains-receive s [] (m ∷ ms) closed permits running spawned h r =
      Drains-pop_front s (extend Msg Transaction tx_ctor [] (m ∷ ms)) [] (m ∷ ms) closed permits
        running spawned h (then_round r refl)
  Drains-receive s (tx ∷ txs) ms closed permits running spawned h r =
      Drains-pop_front s (extend Msg Transaction tx_ctor (tx ∷ txs) ms) (tx ∷ txs) ms closed permits
        running spawned h (then_round r refl)

  Drains-waiting :
      (s : State Msg Transaction tx_ctor) (txs : List Transaction) (ms : List Msg) (closed : Bool)
      (waiting : Option Transaction) (permits running : ℕ) (spawned : List Transaction)
      → 0 < permits + running
      → Runs Msg Transaction tx_ctor s []
          (state_of Msg Transaction tx_ctor txs ms closed waiting permits running spawned)
      → Drains s (
          spawned
          ++ (waiting_list Msg Transaction tx_ctor waiting
              ++ extend Msg Transaction tx_ctor txs ms))
  Drains-waiting s txs ms closed none permits running spawned h r =
      Drains-receive s txs ms closed permits running spawned h r
  Drains-waiting s txs ms closed (some tx) permits running spawned h r =
      let (n, m, h', r') = started s txs ms closed tx permits running spawned h r in
      subst (Drains s) (append_assoc spawned (tx ∷ []) (extend Msg Transaction tx_ctor txs ms))
        (Drains-receive s txs ms closed n m (spawned ++ tx ∷ []) h' r')

  -- From a state with a permit that is left or that a task holds, there is a run without new messages, in
  -- which tasks may end, that empties the channel and the queue. Every transaction that the loop held or
  -- makes of the channel then has its task, in order.
  pub Runs-Drains :
      (s : State Msg Transaction tx_ctor)
      → 0 < s.permits + s.running
      → Drains s (
          held Msg Transaction tx_ctor s
          ++ transactions_of Msg Transaction tx_ctor
              (batch Msg Transaction tx_ctor s.unsubmitted_msgs))
  Runs-Drains s h =
      let waits = waiting_list Msg Transaction tx_ctor s.waiting in
      let made =
        transactions_of Msg Transaction tx_ctor
          (batch Msg Transaction tx_ctor s.unsubmitted_msgs) in
      let same =
        ap (λ ys. s.spawned ++ (waits ++ ys))
          (transactions_of-batch Msg Transaction tx_ctor s.unsubmitted_txs s.unsubmitted_msgs)
        ∙ ap (λ ys. s.spawned ++ ys) (sym (append_assoc waits s.unsubmitted_txs made))
        ∙ sym (append_assoc s.spawned (waits ++ s.unsubmitted_txs) made) in
      subst (Drains s) same (
        Drains-waiting s s.unsubmitted_txs s.unsubmitted_msgs s.closed s.waiting s.permits s.running
          s.spawned h here)
