-- ===== src/Streamer/Poll/Coverage.antt =====
-- streamer/streamer.rs: `poll_hotshot_blocks` delivers each block once, in order.
use chain_adjacent_service.Prelude.{
  leb, Bool-cases, Option-cases, ℕ, zero, suc, ◌+◌, ◌-◌, ◌≤◌, ◌<◌, max, ◌≡◌, refl, sym, ap, subst,
  inl, inr, false, List, [], ◌∷◌, ◌++◌, arith,
}
use chain_adjacent_service.Prelude.Words.{IsU64}
use chain_adjacent_service.Config.{StreamerConfig}
use chain_adjacent_service.Streamer.Poll.{
  range_end, Fetched, blocks, not_found, failed, Answers, Poller, fetch_range, poll_round,
  poll_rounds,
}

module _ (Transaction : Type 0) (chain : ℕ → List Transaction) where
  -- So many blocks of the chain from a height on.
  abbrev pub range : ℕ → ℕ → List (List Transaction)
  range from zero = []
  range from (suc n) = chain from ∷ range (from + 1) n

  -- The ranges that were sent, each with its first height, are the blocks from `start` on and below
  -- `end`, without a gap, and no range has more than 100 blocks.
  abbrev pub Covers : ℕ → List (List (List Transaction) × ℕ) → ℕ → Type 0
  Covers start [] end = start ≡ end
  Covers start ((bs, height) ∷ rest) end =
      (height ≡ start) × ((n : ℕ) × (n ≤ 100) × (bs ≡ range start n) × Covers (start + n) rest end)

  -- A client that answers with the blocks of the chain, when it does.
  abbrev pub Faithful : List (Answers Transaction) → Type 0
  Faithful [] = Unit {0}
  Faithful (a ∷ rounds) =
      ((from to : ℕ) (bs : List (List Transaction))
        → a.namespace_transactions_in_range from to ≡ blocks bs
        → bs ≡ range from (to - from))
      × Faithful rounds

  Covers-append :
      (start mid n : ℕ) (sent : List (List (List Transaction) × ℕ))
      → n ≤ 100
      → Covers start sent mid
      → Covers start (sent ++ (range mid n, mid) ∷ []) (mid + n)
  Covers-append start mid n [] l c = (sym c, (n, l, ap (λ k. range k n) (sym c), ap (λ k. k + n) c))
  Covers-append start mid n ((bs, height) ∷ rest) l (h, (k, kl, e, c)) =
      (h, (k, kl, e, Covers-append (start + k) mid n rest l c))

  -- The poller has covered what lies below its position, and waits no longer than it may.
  pub record Polled (config : StreamerConfig) (start : ℕ) (p : Poller Transaction) : Type 0 where
    pub covered : Covers start p.delivered p.from_block
    pub fits : IsU64 p.from_block
    pub patient : p.backoff_ms ≤ max config.initial_backoff_ms config.max_backoff_ms

  fetch_range-Polled :
      (config : StreamerConfig) (start : ℕ) (a : Answers Transaction) (to : ℕ)
      (p : Poller Transaction)
      → ((from to : ℕ) (bs : List (List Transaction))
          → a.namespace_transactions_in_range from to ≡ blocks bs
          → bs ≡ range from (to - from))
      → p.from_block ≤ to
      → IsU64 to
      → to - p.from_block ≤ 100
      → Polled config start p
      → Polled config start (fetch_range Transaction config a to p)
  unfolding fetch_range
  fetch_range-Polled config start a to p f l u k v =
      answered (a.namespace_transactions_in_range p.from_block to) refl
    where
      answered :
          (r : Fetched Transaction)
          → a.namespace_transactions_in_range p.from_block to ≡ r
          → Polled config start (fetch_range Transaction config a to p)
      answered not_found e = rw (e, fetch_range) v
      answered failed e =
          rw (e, fetch_range) (record { covered = v.covered; fits = v.fits; patient = omega arith })
      answered (blocks bs) e = elim (Bool-cases a.open_channel) [
        | inl o ↦
            let whole : p.from_block + (to - p.from_block) ≡ to = omega arith in
            rw (e, o, fetch_range)
              (record {
                covered =
                    subst (λ b. Covers start (p.delivered ++ (b, p.from_block) ∷ []) to)
                      (sym (f p.from_block to bs e))
                      (subst
                        (λ n.
                          Covers start
                            (p.delivered
                              ++ (range p.from_block (to - p.from_block), p.from_block) ∷ [])
                            n)
                        whole
                        (Covers-append start p.from_block (to - p.from_block) p.delivered k
                          v.covered));
                fits = u;
                patient = omega arith;
              })
        | inr o ↦
            rw (e, o, fetch_range)
              (record { covered = v.covered; fits = v.fits; patient = omega arith })
      ]

  poll_round-Polled :
      (config : StreamerConfig) (start : ℕ) (a : Answers Transaction) (p : Poller Transaction)
      → ((from to : ℕ) (bs : List (List Transaction))
          → a.namespace_transactions_in_range from to ≡ blocks bs
          → bs ≡ range from (to - from))
      → Polled config start p
      → Polled config start (poll_round Transaction config a p)
  unfolding poll_round
  poll_round-Polled config start a p f v = elim (Bool-cases p.stopped) [
    | inl d ↦
        rw (d, poll_round) (record { covered = v.covered; patient = v.patient; fits = v.fits })
    | inr d ↦ elim (Option-cases a.block_height) [
      | inl e ↦
          rw (d, e, poll_round)
            (record { covered = v.covered; fits = v.fits; patient = omega arith })
      | inr (height, e) ↦ elim (Bool-cases (leb height p.from_block)) [
        | inl l ↦
            rw (d, e, l, poll_round)
              (record { covered = v.covered; patient = v.patient; fits = v.fits })
        | inr l ↦
            let above : p.from_block < height = later height p.from_block l in
            rw (d, e, l, poll_round)
              (fetch_range-Polled config start a (range_end p.from_block height) p f
                (omega (arith, above, v.fits)) (omega arith) (omega arith) v)
      ]
    ]
  ]
    where
      later : (h b : ℕ) → leb h b ≡ false → b < h
      later h b e = ground arith

  -- Over any number of rounds, errors and waits among them, with a client that answers from one chain:
  -- the ranges that are sent to the streamer are the blocks of the chain from the starting height up
  -- to the next block to read, in order, none left out and none twice, each range under its first
  -- height, and the wait stays within the larger of the initial and the greatest back-off.
  pub poll_rounds-Polled :
      (config : StreamerConfig) (start : ℕ) (rounds : List (Answers Transaction))
      (p : Poller Transaction)
      → Faithful rounds
      → Polled config start p
      → Polled config start (poll_rounds Transaction config rounds p)
  unfolding poll_rounds
  poll_rounds-Polled config start [] p f v = v
  poll_rounds-Polled config start (a ∷ rounds) p f v =
      poll_rounds-Polled config start rounds (poll_round Transaction config a p) f.1
        (poll_round-Polled config start a p f.0 v)
