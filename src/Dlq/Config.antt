-- ===== src/Dlq/Config.antt =====
-- The constants and the configuration of crates/bus-nats/src/dlq.rs, and the stream that
-- `ensure_dlq_stream` asks JetStream for.
use eventbus_rs.Prelude.{ℕ, ◌*◌, String, Bool, true, false, Option, none, [], ◌∷◌}
use eventbus_rs.Prelude.Int.{ℤ}
use eventbus_rs.Prelude.Text.{format}
use eventbus_rs.Core.Duration.{Duration, from_secs}

abbrev seconds_per_minute : ℕ
seconds_per_minute = 60

abbrev seconds_per_hour : ℕ
seconds_per_hour = 60 * seconds_per_minute

abbrev seconds_per_day : ℕ
seconds_per_day = 24 * seconds_per_hour

abbrev pub default_dlq_max_age_days : ℕ
default_dlq_max_age_days = 30

abbrev pub default_dlq_duplicate_window_min : ℕ
default_dlq_duplicate_window_min = 5

abbrev pub default_dlq_max_age : Duration
default_dlq_max_age = from_secs (default_dlq_max_age_days * seconds_per_day)

abbrev pub default_dlq_duplicate_window : Duration
default_dlq_duplicate_window = from_secs (default_dlq_duplicate_window_min * seconds_per_minute)

abbrev pub default_dlq_replicas : ℕ
default_dlq_replicas = 3

abbrev pub fallback_nak_delay : Duration
fallback_nak_delay = from_secs 5

abbrev pub default_dlq_failure_nak_delay : Duration
default_dlq_failure_nak_delay = from_secs 5

pub record DlqConfig : Type 0 where
  pub num_replicas : ℕ
  pub max_age : Duration
  pub max_bytes : Option ℤ
  pub duplicate_window : Duration
  pub deny_delete : Bool
  pub deny_purge : Bool
  pub allow_direct : Bool
  pub publish_ack_timeout : Option Duration
  pub failure_nak_delay : Duration

abbrev pub default_dlq_config : DlqConfig
default_dlq_config = record {
  num_replicas = default_dlq_replicas;
  max_age = default_dlq_max_age;
  max_bytes = none;
  duplicate_window = default_dlq_duplicate_window;
  deny_delete = true;
  deny_purge = false;
  allow_direct = true;
  publish_ack_timeout = none;
  failure_nak_delay = default_dlq_failure_nak_delay;
}

pub record DlqOptions : Type 0 where
  pub config : DlqConfig

unfoldable pub dlq_stream_name : String → String → String
dlq_stream_name source_stream durable = format ("DLQ_" ∷ source_stream ∷ "_" ∷ durable ∷ [])

unfoldable pub dlq_subject : String → String → String
dlq_subject source_stream durable = format ("dlq." ∷ source_stream ∷ "." ∷ durable ∷ [])
