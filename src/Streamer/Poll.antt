-- ===== src/Streamer/Poll.antt =====
-- streamer/streamer.rs: `poll_hotshot_blocks`, which reads the blocks of HotShot in ranges and sends
-- them to the streamer; utils.rs: the back-off.
pub mod Coverage
use chain_adjacent_service.Prelude.{
  leb, if◌then◌else◌, ℕ, ◌+◌, ◌*◌, min, Bool, true, Option, none, some, List, [], ◌∷◌, ◌++◌,
}
use chain_adjacent_service.Config.{StreamerConfig}
use chain_adjacent_service.Streamer.{hotshot_range_limit, u64_max}

-- The time of the next wait, after one of `backoff_ms`.
abbrev pub exponential_backoff : ℕ → ℕ → ℕ
exponential_backoff backoff_ms max_ms = min (backoff_ms * 2) max_ms

abbrev pub range_end : ℕ → ℕ → ℕ
range_end from_block height = min (min (from_block + hotshot_range_limit) u64_max) height

module _ (Transaction : Type 0) where
  abbrev pub Block : Type 0
  Block = List Transaction

  -- What the client answers to a query of a range. The error 404 is told apart from the others.
  pub data Fetched : Type 0 where
    blocks : List Block → Fetched
    not_found : Fetched
    failed : Fetched

  -- The answers of one round: the number of blocks, the blocks of a range, whether the channel is open.
  pub record Answers : Type 0 where
    pub block_height : Option ℕ
    pub namespace_transactions_in_range : ℕ → ℕ → Fetched
    pub open_channel : Bool

  pub record Poller : Type 0 where
    pub from_block : ℕ
    pub backoff_ms : ℕ
    pub delivered : List (List Block × ℕ)
    pub stopped : Bool

  unfoldable pub fetch_range : StreamerConfig → Answers → ℕ → Poller → Poller
  fetch_range config answers to_block p =
      elim (answers.namespace_transactions_in_range p.from_block to_block) [
        | not_found ↦ p
        | failed ↦ record p { backoff_ms = exponential_backoff p.backoff_ms config.max_backoff_ms }
        | blocks bs ↦
            if answers.open_channel
            then record p {
              from_block = to_block;
              backoff_ms = config.initial_backoff_ms;
              delivered = p.delivered ++ (bs, p.from_block) ∷ [];
            }
            else record p { backoff_ms = config.initial_backoff_ms; stopped = true }
      ]

  -- A round of the loop; an error of the channel ends it.
  unfoldable pub poll_round : StreamerConfig → Answers → Poller → Poller
  unfolding fetch_range
  poll_round config answers p = if p.stopped then p else elim answers.block_height [
    | none ↦ record p { backoff_ms = exponential_backoff p.backoff_ms config.max_backoff_ms }
    | some height ↦
        if leb height p.from_block
        then p
        else fetch_range config answers (range_end p.from_block height) p
  ]

  unfoldable pub poll_rounds : StreamerConfig → List Answers → Poller → Poller
  unfolding poll_round
  poll_rounds config [] p = p
  poll_rounds config (a ∷ rounds) p = poll_rounds config rounds (poll_round config a p)
