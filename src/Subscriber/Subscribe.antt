-- ===== src/Subscriber/Subscribe.antt =====
-- `subscribe` of crates/bus-nats/src/subscriber.rs up to the task that it spawns.
use eventbus_rs.Prelude.{String, Option, none, some, [], ◌∷◌, Result, ok, err}
use eventbus_rs.Prelude.Text.{format}
use eventbus_rs.Core.Error.{BusError, nats, show_error}
use eventbus_rs.Effect.{ret, ◌>>=◌, perform}
use eventbus_rs.Jetstream.{Setup, get_stream, get_or_create_consumer}
use eventbus_rs.Dlq.Config.{DlqOptions, dlq_stream_name, dlq_subject}
use eventbus_rs.Dlq.Stream.{ensure_dlq_stream}
use eventbus_rs.Subscriber.Options.{
  SubscribeOptions, ProcessingOptions, processing_options, PullConfig, build_pull_config,
}
use eventbus_rs.Subscriber.Loop.{Loop, init}

-- A subscription that runs: its task, and what each worker gets.
pub record Subscription (M : Type 0) : Type 0 where
  pub task : Loop M
  pub processing : ProcessingOptions

unfoldable pub pull_config : SubscribeOptions → PullConfig
unfolding build_pull_config
pull_config opts =
    build_pull_config opts.durable opts.filter opts.max_deliver opts.ack_wait opts.backoff

unfoldable pub spawn_task : {M : Type 0} → SubscribeOptions → Subscription M
unfolding init processing_options
spawn_task opts = record { task = init opts.concurrency; processing = processing_options opts }

module _ {O M : Type 0} where
  after_dlq :
      SubscribeOptions → Result (Unit {0}) BusError → Setup O (Result (Subscription M) BusError)
  unfolding spawn_task show_error dlq_stream_name
  after_dlq opts (err e) = ret (
      err (
        nats (
          format (
            "ensure dlq stream "
            ∷ dlq_stream_name opts.stream opts.durable
            ∷ ": "
            ∷ show_error e
            ∷ []))))
  after_dlq opts (ok _) = ret (ok (spawn_task opts))

  with_dlq : SubscribeOptions → Option DlqOptions → Setup O (Result (Subscription M) BusError)
  unfolding after_dlq ensure_dlq_stream dlq_stream_name dlq_subject
  with_dlq opts none = ret (ok (spawn_task opts))
  with_dlq opts (some dlq_opts) = do
    r ←
        ensure_dlq_stream (dlq_stream_name opts.stream opts.durable)
          (dlq_subject opts.stream opts.durable) dlq_opts.config
    after_dlq opts r

  after_consumer :
      SubscribeOptions → Result (Unit {0}) String → Setup O (Result (Subscription M) BusError)
  unfolding with_dlq
  after_consumer opts (err e) = ret (err (nats e))
  after_consumer opts (ok _) = with_dlq opts opts.dlq

  after_stream :
      SubscribeOptions → Result (Unit {0}) String → Setup O (Result (Subscription M) BusError)
  unfolding after_consumer pull_config
  after_stream opts (err e) = ret (err (nats e))
  after_stream opts (ok _) = do
    r ← perform (get_or_create_consumer opts.durable (pull_config opts))
    after_consumer opts r

  unfoldable pub subscribe : SubscribeOptions → Setup O (Result (Subscription M) BusError)
  unfolding after_stream
  subscribe opts = do r ← perform (get_stream opts.stream); after_stream opts r
