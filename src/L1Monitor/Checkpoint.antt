-- ===== src/L1Monitor/Checkpoint.antt =====
-- rollups/nitro/l1_monitor.rs: what `scan_for_latest_checkpoint` returns, and the rounds of `start`.
use chain_adjacent_service.Prelude.{
  leb, ◌==◌, if◌then◌else◌, Bool-cases, Option-cases, last, last-none, Result, ok, ◌>>=◌, ℕ, zero,
  suc, ◌-◌, ◌≤◌, ◌<◌, max, ◌≡◌, refl, ap, ◌∙◌, subst, inl, inr, false, Option, none, some, List, [],
  ◌∷◌, arith,
}
use chain_adjacent_service.L1Monitor.{
  L1MonitorError, CasCheckpoint, LogScanner, checkpoint_of, not_found, earliest_allowed,
  scan_windows, scan_for_latest_checkpoint, FinalizedState, poll_finalized,
}
use chain_adjacent_service.L1Monitor.Scan.{
  within, logs_within, Ordered, Provides, outcome, logs_within_cut, last_within,
}

module _ (S : LogScanner) (block : S.Log → ℕ) where
  windows_step :
      (step max_blocks earliest fuel to : ℕ) (logs : List S.Log)
      → S.get_logs (max (to - step) earliest) to ≡ ok logs
      → scan_windows S step max_blocks earliest (suc fuel) to
        ≡ elim (last logs) as (λ x. Result L1MonitorError CasCheckpoint) [
          | some log ↦ S.decode_log log >>= λ event. ok (checkpoint_of event)
          | none ↦
              if max (to - step) earliest == earliest
              then not_found S max_blocks
              else scan_windows S step max_blocks earliest fuel (max (to - step) earliest - 1)
        ]
  unfolding scan_windows
  windows_step step max_blocks earliest fuel to logs e = rw (e, scan_windows) refl

  scan_windows_lem :
      (chain : List S.Log) (step max_blocks earliest latest fuel to : ℕ)
      → Ordered S block 0 chain
      → Provides S block chain
      → earliest ≤ to
      → to ≤ latest
      → to < fuel
      → logs_within S block (suc to) latest chain ≡ []
      → scan_windows S step max_blocks earliest fuel to
        ≡ outcome S block max_blocks (last (logs_within S block earliest latest chain))
  scan_windows_lem chain step max_blocks earliest latest zero to v p low high short above =
      absurd (omega arith)
  scan_windows_lem chain step max_blocks earliest latest (suc fuel) to v p low high short above =
      let from = max (to - step) earliest in
      let found = logs_within S block from to chain in
      let cut = logs_within_cut S block from to latest chain high above in
      let one = windows_step step max_blocks earliest fuel to found (p from to) in
      elim (Option-cases (last found)) [
        | inr (log, e) ↦
            let whole =
              last_within S block earliest from latest 0 chain log (omega arith) v
                (ap last cut ∙ e) in
            one ∙ rw (e, whole) refl
        | inl e ↦
            let nothing = cut ∙ last-none found e in
            elim (Bool-cases (from == earliest)) [
              | inl h ↦
                  let same : from ≡ earliest = ground arith in
                  let whole : last (logs_within S block earliest latest chain) ≡ none =
                    ap last (subst (λ n. logs_within S block n latest chain ≡ []) same nothing) in
                  one ∙ rw (e, h, whole) refl
              | inr h ↦
                  let lower : earliest < from = positive from to step earliest refl h in
                  one
                  ∙ rw (e, h)
                      (scan_windows_lem chain step max_blocks earliest latest fuel (from - 1) v p
                        (omega arith) (omega arith) (omega arith)
                        (subst (λ n. logs_within S block n latest chain ≡ []) (omega arith)
                          nothing))
            ]
      ]
    where
      positive :
          (from to step earliest : ℕ)
          → from ≡ max (to - step) earliest
          → (from == earliest) ≡ false
          → earliest < from
      positive from to step earliest e h = ground arith

  -- With a provider that returns the logs of a range in the order of the chain, the search in windows
  -- ends, whatever the step is, with what the last event of the whole range says: the range is all
  -- blocks, or the last `max_l1_blocks` of them where this is not 0. Without an event it is the
  -- default checkpoint, or an error where there is a limit.
  pub scan_for_latest_checkpoint_lem :
      (chain : List S.Log) (step max_l1_blocks latest : ℕ)
      → Ordered S block 0 chain
      → Provides S block chain
      → S.get_block_number ≡ ok latest
      → scan_for_latest_checkpoint S step max_l1_blocks
        ≡ outcome S block max_l1_blocks
            (last (logs_within S block (earliest_allowed S latest max_l1_blocks) latest chain))
  unfolding scan_for_latest_checkpoint
  scan_for_latest_checkpoint_lem chain step max_l1_blocks latest v p e = rw e (
      scan_windows_lem chain step max_l1_blocks (earliest_allowed S latest max_l1_blocks) latest
        (suc latest) latest v p (low latest max_l1_blocks) (omega arith) (omega arith)
        (beyond latest chain))
    where
      low : (latest max_blocks : ℕ) → earliest_allowed S latest max_blocks ≤ latest
      low latest max_blocks = ground arith

      beyond : (b : ℕ) (xs : List S.Log) → logs_within S block (suc b) b xs ≡ []
      beyond b [] = refl
      beyond b (x ∷ xs) =
          let no : within S block (suc b) b x ≡ false = ground arith in rw no (beyond b xs)

-- The rounds of `start`, one after the other.
unfoldable pub poll_all : FinalizedState → List (Option ℕ × (ℕ → Option ℕ)) → FinalizedState
unfolding poll_finalized
poll_all s [] = s
poll_all s ((block, count) ∷ rounds) = poll_all (poll_finalized s block count) rounds

-- The answers of one chain: the message count at a block does not depend on when it is asked for,
-- and is never smaller at a later block.
abbrev pub Answers : (ℕ → ℕ) → List (Option ℕ × (ℕ → Option ℕ)) → Type 0
Answers count [] = Unit {0}
Answers count ((block, fetch) ∷ rounds) =
    ((b c : ℕ) → fetch b ≡ some c → c ≡ count b) × Answers count rounds

one_round :
    (count : ℕ → ℕ) (s : FinalizedState) (block : Option ℕ) (fetch : ℕ → Option ℕ)
    → ((a b : ℕ) → a ≤ b → count a ≤ count b)
    → s.l1_finalized_msg_idx ≤ count s.last_finalized_block - 1
    → ((b c : ℕ) → fetch b ≡ some c → c ≡ count b)
    → let t = poll_finalized s block fetch in
      (s.last_finalized_block ≤ t.last_finalized_block)
      × (s.l1_finalized_msg_idx ≤ t.l1_finalized_msg_idx)
      × (t.l1_finalized_msg_idx ≤ count t.last_finalized_block - 1)
unfolding poll_finalized
one_round count s none fetch mono h a = (omega arith, omega arith, h)
one_round count s (some b) fetch mono h a = elim (Bool-cases (leb b s.last_finalized_block)) [
  | inl e ↦ rw e (omega arith, omega arith, h)
  | inr e ↦ elim (Option-cases (fetch b)) [
    | inl g ↦ rw (e, g) (omega arith, omega arith, h)
    | inr (c, g) ↦
        let later : s.last_finalized_block ≤ b = ground arith in
        let same = a b c g in
        let more = mono s.last_finalized_block b later in
        rw (e, g) (later, omega (arith, h, more, same), omega (arith, same))
  ]
]

-- Over any number of rounds, failed ones and blocks out of order among them, the finalized block and
-- the index that is sent never go back, on a chain whose message count does not shrink.
pub poll_all_monotone :
    (count : ℕ → ℕ) (s : FinalizedState) (rounds : List (Option ℕ × (ℕ → Option ℕ)))
    → ((a b : ℕ) → a ≤ b → count a ≤ count b)
    → s.l1_finalized_msg_idx ≤ count s.last_finalized_block - 1
    → Answers count rounds
    → let t = poll_all s rounds in
      (s.last_finalized_block ≤ t.last_finalized_block)
      × (s.l1_finalized_msg_idx ≤ t.l1_finalized_msg_idx)
      × (t.l1_finalized_msg_idx ≤ count t.last_finalized_block - 1)
unfolding poll_all
poll_all_monotone count s [] mono h a = (omega arith, omega arith, h)
poll_all_monotone count s ((block, fetch) ∷ rounds) mono h a =
    let (b, i, k) = one_round count s block fetch mono h a.0 in
    let (b', i', k') = poll_all_monotone count (poll_finalized s block fetch) rounds mono k a.1 in
    (omega (arith, b, b'), omega (arith, i, i'), k')
