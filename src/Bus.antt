-- ===== src/Bus.antt =====
-- crates/event-bus/src/bus.rs. `S` is the type of the idempotency stores.
pub mod Builder
pub mod Script
mod Examples
use eventbus_rs.Prelude.{Bool, Option, none, some, Result, ok, err}
use eventbus_rs.Core.Error.{BusError}
use eventbus_rs.Effect.{ret, ◌>>=◌}
use eventbus_rs.Jetstream.{Setup}
use eventbus_rs.Dlq.Config.{DlqConfig, DlqOptions, dlq_stream_name, dlq_subject}
use eventbus_rs.Dlq.Stream.{ensure_dlq_stream}
use eventbus_rs.Core.Id.{UuidApi}
use eventbus_rs.Dlq.Headers.{HeaderApi}
use eventbus_rs.Publisher.{EventApi, PubReceipt, PubTask, publish_event}
use eventbus_rs.Core.Duration.{Duration}
use eventbus_rs.Subscriber.Handle.{SubscriptionHandle, HandleTask}
use eventbus_rs.Subscriber.Handle
use eventbus_rs.Subscriber.Options.{SubscribeOptions}
use eventbus_rs.Subscriber.Subscribe.{Subscription}
use eventbus_rs.Subscriber.Subscribe

-- The client and the publisher are the JetStream context that the calls go to.
pub record EventBus (S : Type 0) : Type 0 where
  pub idempotency : S
  pub dlq : Option DlqConfig

unfoldable pub new_bus : {S : Type 0} → S → Option DlqConfig → EventBus S
new_bus idempotency dlq = record { idempotency = idempotency; dlq = dlq }

-- The bus publishes with its publisher.
unfoldable pub publish :
    {S E H : Type 0}
    → UuidApi
    → HeaderApi H
    → EventApi E
    → EventBus S
    → E
    → PubTask H (Result PubReceipt BusError)
unfolding publish_event
publish uuids headers event_api bus event = publish_event uuids headers event_api event

-- The bus's own handle passes on to that of the subscriber.
unfoldable pub drain : {T : Type 0} → SubscriptionHandle T → Duration → HandleTask T Bool
unfolding Handle.drain
drain self timeout = Handle.drain self timeout

-- Nothing is asked of the server; the client is dropped.
unfoldable pub shutdown : {S : Type 0} → EventBus S → Result (Unit {0}) BusError
shutdown bus = ok tt

module _ {O M : Type 0} where
  after_bus_dlq :
      SubscribeOptions
      → DlqConfig
      → Result (Unit {0}) BusError
      → Setup O (Result (Subscription M) BusError)
  unfolding Subscribe.subscribe
  after_bus_dlq opts config (err e) = ret (err e)
  after_bus_dlq opts config (ok _) =
      Subscribe.subscribe (record opts { dlq = some (record { config = config }) })

  -- With the DLQ of the options, and that of the bus.
  inherit :
      SubscribeOptions
      → Option DlqOptions
      → Option DlqConfig
      → Setup O (Result (Subscription M) BusError)
  unfolding after_bus_dlq ensure_dlq_stream dlq_stream_name dlq_subject
  inherit opts none (some config) = do
    r ←
        ensure_dlq_stream (dlq_stream_name opts.stream opts.durable)
          (dlq_subject opts.stream opts.durable) config
    after_bus_dlq opts config r
  inherit opts _ _ = Subscribe.subscribe opts

  unfoldable pub subscribe :
      {S : Type 0} → EventBus S → SubscribeOptions → Setup O (Result (Subscription M) BusError)
  unfolding inherit
  subscribe bus opts = inherit opts opts.dlq bus.dlq
