-- ===== src/Submitter/Task.antt =====
-- submitter/submitter.rs: the task that `submit_transactions` starts for one transaction. A round is
-- one request to the client: a submission, or a query of the submitted transaction.
use chain_adjacent_service.Prelude.{
  leb, if◌then◌else◌, Bool-cases, Option-cases, ℕ, suc, ◌≤◌, ◌<◌, max, ◌≡◌, refl, ap, ◌∙◌, sym, inl,
  inr, Bool, true, Option, none, some, List, [], ◌∷◌, ◌⊎◌, arith,
}
use chain_adjacent_service.Streamer.Poll.{exponential_backoff}

-- The settings that the task reads.
pub record SubmitterConfig : Type 0 where
  pub initial_backoff_ms : ℕ
  pub max_backoff_ms : ℕ
  pub max_finalization_poll_retries : ℕ

pub data Phase : Type 0 where
  submitting : Phase
  polling : ℕ → ℕ → Phase
  finalized : ℕ → Phase

-- `submitted` has the hashes that the client gave, the latest first.
pub record Task : Type 0 where
  pub phase : Phase
  pub backoff_ms : ℕ
  pub submitted : List ℕ

-- The answer of the client to the request of a round: the hash of a submission, or whether the
-- transaction of a hash was found.
pub record Client : Type 0 where
  pub submit_transaction : Option ℕ
  pub fetch_transaction_by_hash : ℕ → Bool

module _ (config : SubmitterConfig) where
  abbrev pub spawn : Task
  spawn = record { phase = submitting; backoff_ms = config.initial_backoff_ms; submitted = [] }

  abbrev pub back_off : Task → Task
  back_off t = record t { backoff_ms = exponential_backoff t.backoff_ms config.max_backoff_ms }

  abbrev pub submit : Client → Task → Task
  submit client t = elim (client.submit_transaction) [
    | none ↦ back_off t
    | some tx_hash ↦ record {
      phase = polling tx_hash 0;
      backoff_ms = config.initial_backoff_ms;
      submitted = tx_hash ∷ t.submitted;
    }
  ]

  abbrev pub poll : Client → ℕ → ℕ → Task → Task
  poll client tx_hash poll_attempts t =
      if client.fetch_transaction_by_hash tx_hash
      then record t { phase = finalized tx_hash }
      else if leb config.max_finalization_poll_retries (suc poll_attempts)
      then record t { phase = submitting; backoff_ms = config.initial_backoff_ms }
      else record (back_off t) { phase = polling tx_hash (suc poll_attempts) }

  abbrev pub turn : Client → Phase → Task → Task
  turn client submitting t = submit client t
  turn client (polling tx_hash poll_attempts) t = poll client tx_hash poll_attempts t
  turn client (finalized tx_hash) t = t

  unfoldable pub task_round : Client → Task → Task
  task_round client t = turn client t.phase t

  unfoldable pub task_rounds : List Client → Task → Task
  unfolding task_round
  task_rounds [] t = t
  task_rounds (client ∷ clients) t = task_rounds clients (task_round client t)

  -- The hash that is polled is that of the latest submission, and the polls are below the limit.
  abbrev pub PhaseOk : Phase → List ℕ → Type 0
  PhaseOk submitting hashes = Unit {0}
  PhaseOk (polling h n) hashes =
      ((rest : List ℕ) × (hashes ≡ h ∷ rest)) × (n < max 1 config.max_finalization_poll_retries)
  PhaseOk (finalized h) hashes = (rest : List ℕ) × (hashes ≡ h ∷ rest)

  abbrev pub IsSound : Task → Type 0
  IsSound t =
      (PhaseOk t.phase t.submitted)
      × (t.backoff_ms ≤ max config.initial_backoff_ms config.max_backoff_ms)

  turn-IsSound :
      (client : Client) (phase : Phase) (backoff_ms : ℕ) (hashes : List ℕ)
      → IsSound (record { phase = phase; backoff_ms = backoff_ms; submitted = hashes })
      → IsSound (
          turn client phase (record { phase = phase; backoff_ms = backoff_ms; submitted = hashes }))
  turn-IsSound client submitting b hashes (ok, small) =
      elim (Option-cases client.submit_transaction) [
        | inl e ↦ rw e (tt, omega arith)
        | inr (h, e) ↦ rw e (((hashes, refl), omega arith), omega arith)
      ]
  turn-IsSound client (polling h n) b hashes (ok, small) =
      elim (Bool-cases (client.fetch_transaction_by_hash h)) [
        | inl e ↦ rw e (ok.0, small)
        | inr e ↦ elim (Bool-cases (leb config.max_finalization_poll_retries (suc n))) [
          | inl g ↦ rw (e, g) (tt, omega arith)
          | inr g ↦ rw (e, g) ((ok.0, ground arith), omega arith)
        ]
      ]
  turn-IsSound client (finalized h) b hashes s = s

  task_rounds-IsSound :
      (clients : List Client) (t : Task) → IsSound t → IsSound (task_rounds clients t)
  unfolding task_rounds task_round
  task_rounds-IsSound [] t s = s
  task_rounds-IsSound (client ∷ clients) t s =
      task_rounds-IsSound clients (task_round client t)
        (turn-IsSound client t.phase t.backoff_ms t.submitted s)

  -- One of the answers has the transaction of the hash.
  abbrev pub Found : ℕ → List Client → Type 0
  Found h [] = ⊥
  Found h (client ∷ clients) = (client.fetch_transaction_by_hash h ≡ true) ⊎ Found h clients

  polling-finalized : (a b h : ℕ) → polling a b ≡ finalized h → ⊥
  polling-finalized a b h e = absurd (cc)

  turn-finalized :
      (client : Client) (phase : Phase) (t : Task) (h : ℕ)
      → t.phase ≡ phase
      → (turn client phase t).phase ≡ finalized h
      → (phase ≡ finalized h) ⊎ (client.fetch_transaction_by_hash h ≡ true)
  turn-finalized client submitting t h same e = elim (Option-cases client.submit_transaction) [
    | inl g ↦ inl (sym same ∙ (rw g at e))
    | inr (x, g) ↦ absurd (polling-finalized x 0 h (rw g at e))
  ]
  turn-finalized client (polling x n) t h same e =
      elim (Bool-cases (client.fetch_transaction_by_hash x)) [
        | inl g ↦
            let is_h : finalized x ≡ finalized h = rw g at e in
            inr (sym (ap (λ y. client.fetch_transaction_by_hash y) (hash_of is_h)) ∙ g)
        | inr g ↦ elim (Bool-cases (leb config.max_finalization_poll_retries (suc n))) [
          | inl k ↦ let not_done : submitting ≡ finalized h = rw (g, k) at e in absurd (cc)
          | inr k ↦ absurd (polling-finalized x (suc n) h (rw (g, k) at e))
        ]
      ]
    where
      hash_of : {x y : ℕ} → finalized x ≡ finalized y → x ≡ y
      hash_of e = cc
  turn-finalized client (finalized x) t h same e = inl (sym same ∙ e)

  task_rounds-Found :
      (clients : List Client) (t : Task) (h : ℕ)
      → (task_rounds clients t).phase ≡ finalized h
      → (t.phase ≡ finalized h) ⊎ Found h clients
  unfolding task_rounds task_round
  task_rounds-Found [] t h e = inl e
  task_rounds-Found (client ∷ clients) t h e =
      elim (task_rounds-Found clients (task_round client t) h e) [
        | inl g ↦ elim (turn-finalized client t.phase t h refl g) [
          | inl k ↦ inl k
          | inr k ↦ inr (inl k)
        ]
        | inr g ↦ inr (inr g)
      ]

  -- Whatever the client answers: when the task is done with a hash, it is the hash of the latest
  -- submission, and the client answered a query of that hash with the transaction. While the task
  -- polls, it polls the latest submission, less often than the limit. The back-off stays within the
  -- larger of its settings.
  pub task_rounds-Confirmed :
      (clients : List Client)
      → let t = task_rounds clients spawn in
        (IsSound t) × ((h : ℕ) → t.phase ≡ finalized h → Found h clients)
  task_rounds-Confirmed clients = (
    task_rounds-IsSound clients spawn (tt, omega arith),
    λ h e. elim (task_rounds-Found clients spawn h e) [ inl g ↦ absurd (cc) | inr g ↦ g ],
  )
