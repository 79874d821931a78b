-- ===== src/Submitter/Examples.antt =====
-- A concrete run of the submitter, whose transactions hold two messages, and of a task.
use chain_adjacent_service.Prelude.{
  ℕ, ◌+◌, ◌≤◌, ◌==◌, ◌≡◌, refl, true, false, none, some, List, [], ◌∷◌, arith,
}
use chain_adjacent_service.Submitter.{waits, channel_closed, new_submitter, submit_transactions}
use chain_adjacent_service.Submitter.Deliveries.{Runs-closed}
use chain_adjacent_service.Submitter.Rounds.{
  concat, transactions_of, State, Runs, here, then_arrives, then_closes, then_ends, then_round,
}
use chain_adjacent_service.Submitter.Draining.{Drains, Runs-Drains}
use chain_adjacent_service.Submitter.InFlight.{Runs-InFlight}
use chain_adjacent_service.Submitter.Task.{
  SubmitterConfig, finalized, Client, spawn, task_rounds, IsSound, Found, task_rounds-Confirmed,
}

abbrev pairs : List ℕ → List (List ℕ)
pairs [] = []
pairs (a ∷ []) = (a ∷ []) ∷ []
pairs (a ∷ b ∷ ms) = (a ∷ b ∷ []) ∷ pairs ms

abbrev Pairs : Type 0
Pairs = State ℕ (List ℕ) pairs

-- A submitter with one permit, and three messages in its channel.
abbrev at_start : Pairs
at_start = record (new_submitter ℕ (List ℕ) pairs 1) { unsubmitted_msgs = 1 ∷ 2 ∷ 3 ∷ [] }

abbrev first_waits : Pairs
first_waits = record at_start {
  unsubmitted_msgs = [];
  unsubmitted_txs = (3 ∷ []) ∷ [];
  waiting = some (1 ∷ 2 ∷ []);
}

abbrev first_spawned : Pairs
first_spawned = record first_waits {
  waiting = none;
  permits = 0;
  running = 1;
  spawned = (1 ∷ 2 ∷ []) ∷ [];
}

abbrev second_waits : Pairs
second_waits = record first_spawned { unsubmitted_txs = []; waiting = some (3 ∷ []) }

abbrev second_spawned : Pairs
second_spawned = record second_waits {
  waiting = none;
  closed = true;
  spawned = (1 ∷ 2 ∷ []) ∷ (3 ∷ []) ∷ [];
}

-- The second transaction waits until the task of the first ends; then the sender is gone.
test_run : Runs ℕ (List ℕ) pairs at_start [] second_spawned
unfolding submit_transactions
test_run = then_closes {v = record second_spawned { closed = false }} (
    then_round {v = record second_waits { running = 0; permits = 1 }}
      (then_ends {v = second_waits} 0 refl (
        then_round {v = first_spawned}
          (then_round {v = first_waits} (then_round {v = at_start} here refl) refl) refl))
      refl)

test_blocked : submit_transactions ℕ (List ℕ) pairs second_waits ≡ waits
unfolding submit_transactions
test_blocked = refl

test_end : submit_transactions ℕ (List ℕ) pairs second_spawned ≡ channel_closed
unfolding submit_transactions
test_end = refl

Runs-closed_example :
    (batches : List (List ℕ)) × ((1 ∷ 2 ∷ 3 ∷ [] ≡ concat batches)
      × (second_spawned.spawned ≡ transactions_of ℕ (List ℕ) pairs batches))
Runs-closed_example = Runs-closed ℕ (List ℕ) pairs at_start second_spawned [] test_run test_end

Runs-Drains_example : Drains ℕ (List ℕ) pairs at_start ((1 ∷ 2 ∷ []) ∷ (3 ∷ []) ∷ [])
Runs-Drains_example = Runs-Drains ℕ (List ℕ) pairs at_start (omega arith)

abbrev one_waits : Pairs
one_waits = record (new_submitter ℕ (List ℕ) pairs 1) {
  unsubmitted_txs = [];
  unsubmitted_msgs = [];
  waiting = some (7 ∷ []);
}

test_two_rounds :
    Runs ℕ
      (List ℕ)
      pairs
      (new_submitter ℕ (List ℕ) pairs 1)
      (7 ∷ [])
      (record one_waits { waiting = none; permits = 0; running = 1; spawned = (7 ∷ []) ∷ [] })
unfolding submit_transactions
test_two_rounds =
    then_round {v = one_waits}
      (then_round {v = record (new_submitter ℕ (List ℕ) pairs 1) { unsubmitted_msgs = 7 ∷ [] }}
        (then_arrives {v = new_submitter ℕ (List ℕ) pairs 1} 7 refl here) refl)
      refl

Runs-InFlight_example : (0 + 1 ≡ 1) × (1 ≤ 1)
Runs-InFlight_example =
    Runs-InFlight ℕ (List ℕ) pairs 1
      (record one_waits { waiting = none; permits = 0; running = 1; spawned = (7 ∷ []) ∷ [] })
      (7 ∷ []) test_two_rounds

abbrev test_config : SubmitterConfig
test_config = record {
  initial_backoff_ms = 100;
  max_backoff_ms = 10000;
  max_finalization_poll_retries = 2;
}

abbrev answer : ℕ → Client
answer known = record { submit_transaction = some 8; fetch_transaction_by_hash = λ h. h == known }

-- Two queries without success, then a second submission.
abbrev answers : List Client
answers = answer 0 ∷ answer 0 ∷ answer 0 ∷ answer 0 ∷ answer 8 ∷ []

task_rounds-Confirmed_example :
    (IsSound test_config (task_rounds test_config answers (spawn test_config)))
    × ((h : ℕ)
        → (task_rounds test_config answers (spawn test_config)).phase ≡ finalized h
        → Found test_config h answers)
task_rounds-Confirmed_example = task_rounds-Confirmed test_config answers

test_confirmed :
    task_rounds test_config answers (spawn test_config)
    ≡ record { phase = finalized 8; backoff_ms = 100; submitted = 8 ∷ 8 ∷ [] }
unfolding task_rounds
test_confirmed = refl
