-- ===== src/Bus/Examples.antt =====
-- Building a bus and subscribing on concrete replies.
use eventbus_rs.Prelude.{ℕ, ◌≡◌, refl, some, [], ◌∷◌, ok, err}
use eventbus_rs.Effect.Traces.{trace, result}
use eventbus_rs.Jetstream.{SetupCall, SetupReply, get_stream, get_or_create_consumer}
use eventbus_rs.Samples.{dlq}
use eventbus_rs.Subscriber.Options.{default_options}
use eventbus_rs.Subscriber.Subscribe.{spawn_task, pull_config}
use eventbus_rs.Bus.{EventBus, subscribe}
use eventbus_rs.Bus.Builder.{
  EventBusBuilder, new_builder, url, idempotency_store, replicas, with_dlq, build,
}
use eventbus_rs.Bus.Script.{
  Requests, FollowedBy, requests, with_bus_dlq, bus_script, bus_subscribe_follows, Builds,
  build_follows, dlq_request,
}

-- The connection options and the stores are numbers here.
abbrev builder : EventBusBuilder ℕ ℕ
builder =
    with_dlq dlq.config (replicas 1 (idempotency_store 8 (url "nats://localhost" new_builder)))

abbrev bus : EventBus ℕ
bus = record { idempotency = 8; dlq = some dlq.config }

abbrev reply : (c : SetupCall ℕ) → SetupReply c
reply (get_or_create_consumer durable config) = err "no consumer"
reply _ = ok tt

-- Consumers cannot be created.
abbrev no_consumers : Requests ℕ
no_consumers h c = reply c

result-build : result no_consumers [] (build 0 builder) ≡ ok bus
unfolding result build new_builder url idempotency_store replicas with_dlq
result-build = refl

requests-subscribe :
    requests (trace no_consumers [] (subscribe {M = ℕ} bus default_options))
    ≡ dlq_request default_options dlq.config
      ∷ get_stream "EVENTS"
      ∷ get_or_create_consumer "default-worker" (pull_config default_options)
      ∷ []
unfolding trace subscribe
requests-subscribe = refl

bus_subscribe_follows_example :
    FollowedBy
      (bus_script {O = ℕ} bus default_options)
      (spawn_task {M = ℕ} (with_bus_dlq bus default_options))
      no_consumers
      (subscribe bus default_options)
bus_subscribe_follows_example = bus_subscribe_follows ℕ ℕ bus default_options no_consumers

build_follows_example :
    Builds 0 builder builder.url builder.idempotency
      (trace no_consumers [] (build 0 builder))
      (result no_consumers [] (build 0 builder))
build_follows_example = build_follows 0 builder no_consumers
