-- ===== src/Config.antt =====
-- config.rs and da_api/config.rs: the settings that the modelled code reads.
use chain_adjacent_service.Prelude.{ℕ}

pub record StreamerConfig : Type 0 where
  pub initial_backoff_ms : ℕ
  pub max_backoff_ms : ℕ
  pub retry_broadcast_delay_ms : ℕ
  pub starting_pos : ℕ
  pub starting_hotshot_height : ℕ
  pub max_full_queue_entries : ℕ
  pub hotshot_stall_warn_ms : ℕ
  pub progress_log_interval_ms : ℕ

abbrev pub default_streamer_config : StreamerConfig
default_streamer_config = record {
  initial_backoff_ms = 1000;
  max_backoff_ms = 30000;
  retry_broadcast_delay_ms = 300;
  starting_pos = 0;
  starting_hotshot_height = 0;
  max_full_queue_entries = 1000;
  hotshot_stall_warn_ms = 30000;
  progress_log_interval_ms = 15000;
}

pub data TeeType : Type 0 where
  nitro : TeeType
  test : TeeType

pub TeeType-discrete : Discrete TeeType
TeeType-discrete = hlevel
