-- ===== src/Submitter/InFlight.antt =====
-- submitter/submitter.rs: the semaphore bounds the tasks that run at a time.
use chain_adjacent_service.Prelude.{
  Bool, true, false, ℕ, zero, suc, ◌+◌, ◌≤◌, Option, none, some, List, [], ◌∷◌, ◌≡◌, refl, sym, ap,
  ◌∙◌, arith,
}
use chain_adjacent_service.Submitter.{
  new_submitter, extend, pop_front, receive, turn_of, submit_transactions,
}
use chain_adjacent_service.Submitter.Rounds.{
  State, Runs, here, then_arrives, then_closes, then_ends, then_round, after, state_of,
}

module _ (Msg Transaction : Type 0) (tx_ctor : List Msg → List Transaction) where
  -- The permits of the semaphore, those that tasks hold included.
  abbrev total : State Msg Transaction tx_ctor → ℕ
  total s = s.permits + s.running

  total-pop_front :
      (l : List Transaction) (s : State Msg Transaction tx_ctor)
      → total (pop_front Msg Transaction tx_ctor l s) ≡ total s
  total-pop_front [] s = refl
  total-pop_front (tx ∷ l) s = refl

  total-receive :
      (txs : List Transaction) (ms : List Msg) (closed : Bool) (s : State Msg Transaction tx_ctor)
      → total (after Msg Transaction tx_ctor s (receive Msg Transaction tx_ctor txs ms closed s))
        ≡ total s
  total-receive [] [] true s = refl
  total-receive [] [] false s = refl
  total-receive [] (m ∷ ms) closed s =
      total-pop_front (extend Msg Transaction tx_ctor [] (m ∷ ms)) s
  total-receive (tx ∷ txs) ms closed s =
      total-pop_front (extend Msg Transaction tx_ctor (tx ∷ txs) ms) s

  total-turn_of :
      (txs : List Transaction) (ms : List Msg) (closed : Bool) (waiting : Option Transaction)
      (permits running : ℕ) (spawned : List Transaction)
      → let s : State Msg Transaction tx_ctor =
          state_of Msg Transaction tx_ctor txs ms closed waiting permits running spawned in
        total (after Msg Transaction tx_ctor s (turn_of Msg Transaction tx_ctor waiting s))
        ≡ permits + running
  total-turn_of txs ms closed none permits running spawned = total-receive txs ms closed _
  total-turn_of txs ms closed (some tx) zero running spawned = refl
  total-turn_of txs ms closed (some tx) (suc n) running spawned = omega arith

  Runs-total :
      (s t : State Msg Transaction tx_ctor) (arrived : List Msg)
      → Runs Msg Transaction tx_ctor s arrived t
      → total t ≡ total s
  unfolding submit_transactions
  Runs-total s t _ here = refl
  Runs-total s t _ (then_arrives {arrived} {v} m still_open r) = Runs-total s v arrived r
  Runs-total s t arrived (then_closes {v} r) = Runs-total s v arrived r
  Runs-total s t arrived (then_ends {v} others e r) =
      let same = Runs-total s v arrived r in omega (arith, e, same)
  Runs-total s t arrived (then_round {v} r e) =
      ap (λ x. total (after Msg Transaction tx_ctor v x)) (sym e)
      ∙ total-turn_of v.unsubmitted_txs v.unsubmitted_msgs v.closed v.waiting v.permits v.running
          v.spawned
      ∙ Runs-total s v arrived r

  -- In any run of a new submitter, the permits that are left and the tasks that run are `max_in_flight`
  -- together, and so no more tasks than that run at a time.
  pub Runs-InFlight :
      (max_in_flight : ℕ) (t : State Msg Transaction tx_ctor) (arrived : List Msg)
      → Runs Msg Transaction tx_ctor (new_submitter Msg Transaction tx_ctor max_in_flight) arrived t
      → (t.permits + t.running ≡ max_in_flight) × (t.running ≤ max_in_flight)
  Runs-InFlight max_in_flight t arrived r =
      let same = Runs-total (new_submitter Msg Transaction tx_ctor max_in_flight) t arrived r in
      (omega (arith, same), omega (arith, same))
