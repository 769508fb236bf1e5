-- ===== src/Subscriber/Options.antt =====
-- The options of crates/bus-nats/src/subscriber.rs, and the pull consumer's configuration of
-- crates/bus-nats/src/consumer.rs.
use eventbus_rs.Prelude.{ℕ, String, Option, none, some, List, [], ◌∷◌}
use eventbus_rs.Prelude.Int.{ℤ, pos}
use eventbus_rs.Core.Duration.{Duration, from_secs}
use eventbus_rs.Dlq.Config.{DlqOptions}

pub record SubscribeOptions : Type 0 where
  pub stream : String
  pub durable : String
  pub filter : String
  pub max_deliver : ℤ
  pub ack_wait : Duration
  pub backoff : List Duration
  pub concurrency : ℕ
  pub dlq : Option DlqOptions

abbrev pub default_options : SubscribeOptions
default_options = record {
  stream = "EVENTS";
  durable = "default-worker";
  filter = ">";
  max_deliver = pos 5;
  ack_wait = from_secs 30;
  backoff = from_secs 1 ∷ from_secs 5 ∷ from_secs 30 ∷ from_secs 300 ∷ [];
  concurrency = 1;
  dlq = none;
}

-- What every worker gets of the options. The JetStream context is the target of the calls.
pub record ProcessingOptions : Type 0 where
  pub dlq_opts : Option DlqOptions
  pub source : String
  pub durable : String
  pub max_deliver : ℤ
  pub backoff : List Duration

unfoldable pub processing_options : SubscribeOptions → ProcessingOptions
processing_options opts = record {
  dlq_opts = opts.dlq;
  source = opts.stream;
  durable = opts.durable;
  max_deliver = opts.max_deliver;
  backoff = opts.backoff;
}

pub data AckPolicy : Type 0 where
  explicit : AckPolicy

pub data DeliverPolicy : Type 0 where
  all : DeliverPolicy

-- The fields of `pull::Config` that the source sets; the others have async-nats' defaults.
pub record PullConfig : Type 0 where
  pub durable_name : Option String
  pub filter_subject : String
  pub ack_policy : AckPolicy
  pub deliver_policy : DeliverPolicy
  pub ack_wait : Duration
  pub max_deliver : ℤ
  pub backoff : List Duration

unfoldable pub build_pull_config : String → String → ℤ → Duration → List Duration → PullConfig
build_pull_config durable filter max_deliver ack_wait backoff = record {
  durable_name = some durable;
  filter_subject = filter;
  ack_policy = explicit;
  deliver_policy = all;
  ack_wait = ack_wait;
  max_deliver = max_deliver;
  backoff = backoff;
}
