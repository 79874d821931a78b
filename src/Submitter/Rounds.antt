-- ===== src/Submitter/Rounds.antt =====
-- submitter/submitter.rs: runs of `submit_transactions`, and what one round of it accounts for.
use chain_adjacent_service.Prelude.{
  Bool, true, false, ℕ, zero, suc, Option, none, some, List, [], ◌∷◌, ◌++◌, ◌≡◌, refl, sym, ap, ◌∙◌,
}
use mathlib.Core.List.{append_assoc, append-nil}
use chain_adjacent_service.Submitter.{
  Submitter, extend, pop_front, Round, waits, channel_closed, continues, receive, turn_of,
  task_ends, submit_transactions,
}

abbrev pub concat : {A : Type 0} → List (List A) → List A
concat [] = []
concat (xs ∷ xss) = xs ++ concat xss

module _ (Msg Transaction : Type 0) (tx_ctor : List Msg → List Transaction) where
  abbrev pub State : Type 0
  State = Submitter Msg Transaction tx_ctor

  -- The transactions of batches, each of which `tx_ctor` is called with.
  abbrev pub transactions_of : List (List Msg) → List Transaction
  transactions_of [] = []
  transactions_of (b ∷ bs) = tx_ctor b ++ transactions_of bs

  -- A run: messages come in between the rounds of the loop that go on, until the senders of the
  -- channel are gone, and tasks end.
  pub data Runs (s : State) : List Msg → State → Type 0 where
    here : Runs s [] s
    then_arrives :
        {arrived : List Msg} {v : State} (m : Msg)
        → v.closed ≡ false
        → Runs s arrived v
        → Runs s (arrived ++ m ∷ []) (record v { unsubmitted_msgs = v.unsubmitted_msgs ++ m ∷ [] })
    then_closes :
        {arrived : List Msg} {v : State}
        → Runs s arrived v
        → Runs s arrived (record v { closed = true })
    then_ends :
        {arrived : List Msg} {v : State} (others : ℕ)
        → v.running ≡ suc others
        → Runs s arrived v
        → Runs s arrived (task_ends Msg Transaction tx_ctor others v)
    then_round :
        {arrived : List Msg} {v u : State}
        → Runs s arrived v
        → submit_transactions Msg Transaction tx_ctor v ≡ continues u
        → Runs s arrived u

  -- The batches of one round: one, or none.
  abbrev pub batch : List Msg → List (List Msg)
  batch [] = []
  batch (m ∷ ms) = (m ∷ ms) ∷ []

  concat-batch : (ms : List Msg) → concat (batch ms) ≡ ms
  concat-batch [] = refl
  concat-batch (m ∷ ms) = append-nil (m ∷ ms)

  pub transactions_of-batch :
      (txs : List Transaction) (ms : List Msg)
      → extend Msg Transaction tx_ctor txs ms ≡ txs ++ transactions_of (batch ms)
  transactions_of-batch txs [] = sym (append-nil txs)
  transactions_of-batch txs (m ∷ ms) = ap (λ ys. txs ++ ys) (sym (append-nil (tx_ctor (m ∷ ms))))

  abbrev pub waiting_list : Option Transaction → List Transaction
  waiting_list none = []
  waiting_list (some tx) = tx ∷ []

  -- The transactions that have a task, that which waits for a permit, and those in the queue.
  abbrev pub held : State → List Transaction
  held s = s.spawned ++ (waiting_list s.waiting ++ s.unsubmitted_txs)

  abbrev pub state_of :
      List Transaction → List Msg → Bool → Option Transaction → ℕ → ℕ → List Transaction → State
  state_of txs ms closed waiting permits running spawned = record {
    unsubmitted_txs = txs;
    unsubmitted_msgs = ms;
    closed = closed;
    waiting = waiting;
    permits = permits;
    running = running;
    spawned = spawned;
  }

  -- The state after a round, also of one that waits or ends.
  abbrev pub after : State → Round Msg Transaction tx_ctor → State
  after s waits = s
  after s channel_closed = s
  after s (continues t) = t

  held-pop_front :
      (txs l : List Transaction) (ms : List Msg) (closed : Bool) (permits running : ℕ)
      (spawned : List Transaction)
      → let u =
          pop_front Msg Transaction tx_ctor l
            (state_of txs ms closed none permits running spawned) in
        (u.unsubmitted_msgs ≡ []) × (held u ≡ spawned ++ l)
  held-pop_front txs [] ms closed permits running spawned = (refl, refl)
  held-pop_front txs (tx ∷ l) ms closed permits running spawned = (refl, refl)

  -- What one round accounts for: the batch that it reads, where it reads one.
  abbrev pub RoundAccounts : State → State → Type 0
  RoundAccounts t u =
      (read : List (List Msg)) × (t.unsubmitted_msgs ≡ concat read ++ u.unsubmitted_msgs)
      × (held u ≡ held t ++ transactions_of read)

  RoundAccounts-same : (t : State) → RoundAccounts t t
  RoundAccounts-same t = ([], refl, sym (append-nil (held t)))

  RoundAccounts-receive :
      (txs : List Transaction) (ms : List Msg) (closed : Bool) (permits running : ℕ)
      (spawned : List Transaction)
      → let s : State = state_of txs ms closed none permits running spawned in
        RoundAccounts s (after s (receive Msg Transaction tx_ctor txs ms closed s))
  RoundAccounts-receive [] [] true permits running spawned =
      RoundAccounts-same (state_of [] [] true none permits running spawned)
  RoundAccounts-receive [] [] false permits running spawned =
      RoundAccounts-same (state_of [] [] false none permits running spawned)
  RoundAccounts-receive [] (m ∷ ms) closed permits running spawned =
      let l = extend Msg Transaction tx_ctor [] (m ∷ ms) in
      let (none_left, same) = held-pop_front [] l (m ∷ ms) closed permits running spawned in
      (
        batch (m ∷ ms),
        sym (concat-batch (m ∷ ms))
            ∙ sym (append-nil (concat (batch (m ∷ ms))))
            ∙ ap (λ ys. concat (batch (m ∷ ms)) ++ ys) (sym none_left),
        same
            ∙ ap (λ ys. spawned ++ ys) (transactions_of-batch [] (m ∷ ms))
            ∙ sym (append_assoc spawned [] (transactions_of (batch (m ∷ ms)))),
      )
  RoundAccounts-receive (tx ∷ txs) ms closed permits running spawned =
      let l = extend Msg Transaction tx_ctor (tx ∷ txs) ms in
      let (none_left, same) = held-pop_front (tx ∷ txs) l ms closed permits running spawned in
      (
        batch ms,
        sym (concat-batch ms)
            ∙ sym (append-nil (concat (batch ms)))
            ∙ ap (λ ys. concat (batch ms) ++ ys) (sym none_left),
        same
            ∙ ap (λ ys. spawned ++ ys) (transactions_of-batch (tx ∷ txs) ms)
            ∙ sym (append_assoc spawned (tx ∷ txs) (transactions_of (batch ms))),
      )

  pub RoundAccounts-turn_of :
      (txs : List Transaction) (ms : List Msg) (closed : Bool) (waiting : Option Transaction)
      (permits running : ℕ) (spawned : List Transaction)
      → let s : State = state_of txs ms closed waiting permits running spawned in
        RoundAccounts s (after s (turn_of Msg Transaction tx_ctor waiting s))
  RoundAccounts-turn_of txs ms closed none permits running spawned =
      RoundAccounts-receive txs ms closed permits running spawned
  RoundAccounts-turn_of txs ms closed (some tx) zero running spawned =
      RoundAccounts-same (state_of txs ms closed (some tx) 0 running spawned)
  RoundAccounts-turn_of txs ms closed (some tx) (suc n) running spawned =
      ([], refl, append_assoc spawned (tx ∷ []) txs ∙ sym (append-nil (spawned ++ (tx ∷ txs))))
