-- ===== src/Bus/Builder.antt =====
-- crates/event-bus/src/builder.rs. `O` is the type of async-nats' `ConnectOptions` and `S` that of the
-- idempotency stores.
use eventbus_rs.Prelude.{ℕ, String, Option, none, some, Result, ok, err}
use eventbus_rs.Core.Duration.{Duration}
use eventbus_rs.Core.Error.{BusError, publish}
use eventbus_rs.Effect.{ret, ◌>>=◌}
use eventbus_rs.Jetstream.{Setup}
use eventbus_rs.Client.{StreamConfig, default_stream_config, connect_with_options, connect_default}
use eventbus_rs.Dlq.Config.{DlqConfig}
use eventbus_rs.Bus.{EventBus, new_bus}

pub record EventBusBuilder (O S : Type 0) : Type 0 where
  pub url : Option String
  pub stream_cfg : StreamConfig
  pub idempotency : Option S
  pub connect_options : Option O
  pub dlq : Option DlqConfig

open_client :
    {O : Type 0} → O → String → StreamConfig → Option O → Setup O (Result (Unit {0}) BusError)
unfolding connect_with_options connect_default
open_client default_connect_options u cfg (some options) = connect_with_options u options cfg
open_client default_connect_options u cfg none = connect_default default_connect_options u cfg

module _ {O S : Type 0} where
  unfoldable pub new_builder : EventBusBuilder O S
  new_builder = record {
    url = none;
    stream_cfg = default_stream_config;
    idempotency = none;
    connect_options = none;
    dlq = none;
  }

  unfoldable pub url : String → EventBusBuilder O S → EventBusBuilder O S
  url u b = record b { url = some u }

  unfoldable pub stream_config : StreamConfig → EventBusBuilder O S → EventBusBuilder O S
  stream_config cfg b = record b { stream_cfg = cfg }

  unfoldable pub replicas : ℕ → EventBusBuilder O S → EventBusBuilder O S
  replicas n b = record b { stream_cfg = record b.stream_cfg { num_replicas = n } }

  unfoldable pub dedup_window : Duration → EventBusBuilder O S → EventBusBuilder O S
  dedup_window d b = record b { stream_cfg = record b.stream_cfg { duplicate_window = d } }

  unfoldable pub stream_name : String → EventBusBuilder O S → EventBusBuilder O S
  stream_name n b = record b { stream_cfg = record b.stream_cfg { name = n } }

  unfoldable pub idempotency_store : S → EventBusBuilder O S → EventBusBuilder O S
  idempotency_store store b = record b { idempotency = some store }

  unfoldable pub connect_options : O → EventBusBuilder O S → EventBusBuilder O S
  connect_options options b = record b { connect_options = some options }

  unfoldable pub with_dlq : DlqConfig → EventBusBuilder O S → EventBusBuilder O S
  with_dlq cfg b = record b { dlq = some cfg }

  after_client :
      S → Option DlqConfig → Result (Unit {0}) BusError → Setup O (Result (EventBus S) BusError)
  unfolding new_bus
  after_client store dlq (err e) = ret (err e)
  after_client store dlq (ok _) = ret (ok (new_bus store dlq))

  build_with :
      O → EventBusBuilder O S → Option String → Option S → Setup O (Result (EventBus S) BusError)
  unfolding after_client open_client
  build_with default_connect_options b none store = ret (err (publish "url is required"))
  build_with default_connect_options b (some u) none = ret (
      err (
        BusError.idempotency
          "idempotency store is required — call .idempotency(store) before build()"))
  build_with default_connect_options b (some u) (some store) = do
    client ← open_client default_connect_options u b.stream_cfg b.connect_options
    after_client store b.dlq client

  -- The first argument is `ConnectOptions::default()`.
  unfoldable pub build : O → EventBusBuilder O S → Setup O (Result (EventBus S) BusError)
  unfolding build_with
  build default_connect_options b = build_with default_connect_options b b.url b.idempotency
