-- ===== src/Apps.antt =====
-- The programs of examples/: what they share. Each runs the library's parts one after the other; a
-- step that fails ends the program with its error. `O` is the type of async-nats' `ConnectOptions` and
-- `H` its header map; printing is left out.
pub mod BasicPublish
pub mod IdempotentHandler
mod Passes
mod Examples
use eventbus_rs.Prelude.{ℕ, String, Bool, true, false, List, [], ◌∷◌, Result, ok, err, map_err}
use eventbus_rs.Core.Duration.{Duration, from_secs}
use eventbus_rs.Core.Error.{BusError}
use eventbus_rs.Core.Id.{MessageId, UuidApi}
use eventbus_rs.Effect.{Proc, ret, ◌>>=◌, perform, embed}
use eventbus_rs.Jetstream.{SetupCall, SetupReply, Setup}
use eventbus_rs.Client.{StreamConfig, default_stream_config, connect_default}
use eventbus_rs.Advisory.{AdvisoryLogOptions, default_advisory_options, Logger, spawn_logger}
use eventbus_rs.Inbox.NatsKv.{
  KvCall, KvReply, KvTask, NatsKvIdempotencyConfig, default_kv_config, new_store,
}
use eventbus_rs.Publisher.{PubCall, PubReply, PubTask, PubReceipt}
use eventbus_rs.Bus.{EventBus}
use eventbus_rs.Bus.Builder.{new_builder, url, stream_config, idempotency_store, build}
use eventbus_rs.Subscriber.Message.{Message}
use eventbus_rs.Subscriber.Subscribe.{Subscription}

pub data AppCall (O H : Type 0) : Type 0 where
  on_server : SetupCall O → AppCall O H
  on_bucket : KvCall → AppCall O H
  on_stream : PubCall H → AppCall O H
  subscribe_advisories : String → AppCall O H
  new_message_id : AppCall O H  -- `MessageId::new()`, a UUIDv7
  start_subscription : Subscription (Message H) → AppCall O H  -- `tokio::spawn` of its task
  sleep : Duration → AppCall O H
  load_count : AppCall O H  -- the handler's counter, which its runs add to meanwhile

abbrev pub AppReply : {O H : Type 0} → AppCall O H → Type 0
AppReply (on_server c) = SetupReply c
AppReply (on_bucket c) = KvReply c
AppReply (on_stream c) = PubReply c
AppReply (subscribe_advisories filter) = Result (Unit {0}) String
AppReply new_message_id = MessageId
AppReply (start_subscription subscription) = Unit {0}
AppReply (sleep d) = Unit {0}
AppReply load_count = ℕ

abbrev pub App : Type 0 → Type 0 → Type 0 → Type 0
App O H A = Proc (AppCall O H) AppReply A

-- How a program ends: it returns, with or without an error, or an `assert!` fails.
pub data Exit : Type 0 where
  returned : Exit
  failed : BusError → Exit
  panicked : Exit

abbrev stream_cfg : StreamConfig
stream_cfg = record default_stream_config { num_replicas = 1 }

abbrev store_cfg : NatsKvIdempotencyConfig
store_cfg = record default_kv_config { num_replicas = 1; max_age = from_secs 3600 }

module _ {O H : Type 0} where
  -- The operator `?`.
  abbrev pub or_fail : {A : Type 0} → Result A BusError → (A → App O H Exit) → App O H Exit
  or_fail (err e) k = ret (failed e)
  or_fail (ok a) k = k a

  abbrev pub server : {A : Type 0} → Setup O A → App O H A
  server t = embed on_server (λ c r. r) t

  abbrev pub bucket : {A : Type 0} → KvTask A → App O H A
  bucket t = embed on_bucket (λ c r. r) t

  abbrev pub stream : {A : Type 0} → PubTask H A → App O H A
  stream t = embed on_stream (λ c r. r) t

  abbrev pub check : Bool → App O H Exit → App O H Exit
  check true next = next
  check false next = ret panicked

  -- The start of either program: the client, the advisory logger, the store, and then what it does
  -- with the bus. The first argument is `ConnectOptions::default()`; the store is the bucket.
  unfoldable pub with_bus : O → String → (EventBus (Unit {0}) → App O H Exit) → App O H Exit
  unfolding connect_default new_store build new_builder url stream_config idempotency_store
      spawn_logger
  with_bus options u k = do
    client ← server (connect_default options u stream_cfg)
    or_fail client (λ _. do
      advisories ← perform (subscribe_advisories default_advisory_options.subject_filter)
      or_fail (spawn_logger advisories) (λ _. do
        store ← bucket (new_store store_cfg)
        or_fail store (λ s. do
          bus ←
              server
                (build options (idempotency_store s (stream_config stream_cfg (url u new_builder))))
          or_fail bus k)))
