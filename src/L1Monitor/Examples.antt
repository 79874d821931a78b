-- ===== src/L1Monitor/Examples.antt =====
-- A concrete search and concrete rounds of polling.
use chain_adjacent_service.Prelude.{
  leb, last, filter, ok, ℕ, ◌-◌, ◌*◌, ◌≤◌, ◌≡◌, refl, ◌&&◌, Option, none, some, List, [], ◌∷◌,
  arith,
}
use chain_adjacent_service.L1Monitor.{
  EspressoCertificateVerified, LogScanner, scan_for_latest_checkpoint, FinalizedState,
}
use chain_adjacent_service.L1Monitor.Scan.{logs_within, outcome}
use chain_adjacent_service.L1Monitor.Checkpoint.{
  scan_for_latest_checkpoint_lem, poll_all, Answers, poll_all_monotone,
}

pub record TestLog : Type 0 where
  pub block : ℕ
  pub event : EspressoCertificateVerified

abbrev pub chain : List TestLog
chain =
    record {
      block = 8;
      event = record { hotshot_block = 80; delayed_message_read = 1; message_count = 5 };
    }
    ∷ record {
      block = 20;
      event = record { hotshot_block = 90; delayed_message_read = 2; message_count = 9 };
    }
    ∷ []

abbrev between : ℕ → ℕ → List TestLog → List TestLog
between from to logs = filter (λ l. leb from l.block && leb l.block to) logs

abbrev pub test_scanner : LogScanner
test_scanner = record {
  Log = TestLog;
  get_block_number = ok 100;
  get_logs = λ from to. ok (between from to chain);
  decode_log = λ l. ok l.event;
}

scan_for_latest_checkpoint_lem_example :
    scan_for_latest_checkpoint test_scanner 10 0
    ≡ outcome test_scanner
        (λ l. l.block)
        0
        (last (logs_within test_scanner (λ l. l.block) 0 100 chain))
scan_for_latest_checkpoint_lem_example =
    scan_for_latest_checkpoint_lem test_scanner (λ l. l.block) chain 10 0 100 (omega arith)
      (λ from to. refl) refl

abbrev double : ℕ → ℕ
double n = 2 * n

abbrev rounds : List (Option ℕ × (ℕ → Option ℕ))
rounds = (some 7, λ b. some (double b)) ∷ (none, λ b. none) ∷ (some 6, λ b. none) ∷ []

abbrev started : FinalizedState
started = record { last_finalized_block = 0; l1_finalized_msg_idx = 0 }

rounds-Answers : Answers double rounds
rounds-Answers =
    (λ b c h. ground arith, (λ b c h. absurd (ground arith), (λ b c h. absurd (ground arith), tt)))

poll_all_monotone_example :
    let t = poll_all started rounds in
    (0 ≤ t.last_finalized_block)
    × (0 ≤ t.l1_finalized_msg_idx)
    × (t.l1_finalized_msg_idx ≤ double t.last_finalized_block - 1)
poll_all_monotone_example =
    poll_all_monotone double started rounds (λ a b h. omega arith) (omega arith) rounds-Answers
