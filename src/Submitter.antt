-- ===== src/Submitter.antt =====
-- submitter/submitter.rs: the loop of `submit_transactions`, which turns the messages of a channel into
-- transactions and starts a task for each, once the semaphore has a permit for it. The work of a task is
-- in Submitter/Task. The code never closes the semaphore, and so no permit is refused for good.
pub mod Rounds
pub mod Deliveries
pub mod Draining
pub mod InFlight
pub mod Task
pub mod Examples
use chain_adjacent_service.Prelude.{
  Bool, true, false, ℕ, zero, suc, ◌+◌, Option, none, some, List, [], ◌∷◌, ◌++◌,
}

module _ (Msg Transaction : Type 0) (tx_ctor : List Msg → List Transaction) where
  -- The channel is what it holds, and whether its sender is gone. `waiting` is the transaction that was
  -- taken from the queue and waits for a permit, `permits` is what the semaphore has left, `running` is
  -- the number of the tasks that hold a permit, and `spawned` has the transaction of each task that was
  -- started.
  pub record Submitter : Type 0 where
    pub unsubmitted_txs : List Transaction
    pub unsubmitted_msgs : List Msg
    pub closed : Bool
    pub waiting : Option Transaction
    pub permits : ℕ
    pub running : ℕ
    pub spawned : List Transaction

  abbrev pub new_submitter : ℕ → Submitter
  new_submitter max_in_flight = record {
    unsubmitted_txs = [];
    unsubmitted_msgs = [];
    closed = false;
    waiting = none;
    permits = max_in_flight;
    running = 0;
    spawned = [];
  }

  -- `extend` with the transactions of the messages that were read, where there are any.
  abbrev pub extend : List Transaction → List Msg → List Transaction
  extend txs [] = txs
  extend txs (m ∷ ms) = txs ++ tx_ctor (m ∷ ms)

  -- The next transaction, which then waits for a permit.
  abbrev pub pop_front : List Transaction → Submitter → Submitter
  pop_front [] s = record s { unsubmitted_txs = []; unsubmitted_msgs = [] }
  pop_front (tx ∷ txs) s = record s {
    unsubmitted_txs = txs;
    unsubmitted_msgs = [];
    waiting = some tx;
  }

  -- What a round comes to: it waits for a message or a permit, or the loop ends with `ChannelClosed`, or
  -- it goes on.
  pub data Round : Type 0 where
    waits : Round
    channel_closed : Round
    continues : Submitter → Round

  abbrev pub receive : List Transaction → List Msg → Bool → Submitter → Round
  receive [] [] true s = channel_closed
  receive [] [] false s = waits
  receive [] (m ∷ ms) closed s = continues (pop_front (extend [] (m ∷ ms)) s)
  receive (tx ∷ txs) ms closed s = continues (pop_front (extend (tx ∷ txs) ms) s)

  -- With a permit the task of the transaction is started, and holds it.
  abbrev pub acquire : Transaction → ℕ → Submitter → Round
  acquire tx zero s = waits
  acquire tx (suc n) s = continues (record s {
    waiting = none;
    permits = n;
    running = s.running + 1;
    spawned = s.spawned ++ tx ∷ [];
  })

  abbrev pub turn_of : Option Transaction → Submitter → Round
  turn_of none s = receive s.unsubmitted_txs s.unsubmitted_msgs s.closed s
  turn_of (some tx) s = acquire tx s.permits s

  -- The part of the loop up to the wait for a permit, or the part from there on.
  unfoldable pub submit_transactions : Submitter → Round
  submit_transactions s = turn_of s.waiting s

  -- A task that ends gives its permit back.
  abbrev pub task_ends : ℕ → Submitter → Submitter
  task_ends others s = record s { running = others; permits = s.permits + 1 }
