-- ===== src/Apps/IdempotentHandler.antt =====
-- examples/03-idempotent-handler/src/main.rs.
use eventbus_rs.Prelude.{false, ℕ, ◌+◌, ◌%◌, ◌^◌, ◌==◌, String, [], ◌∷◌, Result, ok}
use eventbus_rs.Prelude.Int.{ℤ, pos}
use eventbus_rs.Core.Duration.{from_secs}
use eventbus_rs.Core.Error.{HandlerError}
use eventbus_rs.Core.Id.{MessageId, UuidApi}
use eventbus_rs.Core.Handler.{HandlerCtx}
use eventbus_rs.Calls.{Bytes}
use eventbus_rs.Dlq.Headers.{HeaderApi}
use eventbus_rs.Derive.{str, type_path, named_struct, DeriveInput}
use eventbus_rs.Publisher.{EventApi}
use eventbus_rs.Effect.{ret, ◌>>=◌, ◌>>◌, perform}
use eventbus_rs.Subscriber.Options.{SubscribeOptions, default_options}
use eventbus_rs.Bus.{EventBus, publish, shutdown, subscribe}
use eventbus_rs.Apps.{
  App, Exit, returned, or_fail, server, stream, check, with_bus, new_message_id, start_subscription,
  sleep, load_count,
}

pub record PaymentProcessed : Type 0 where
  pub id : MessageId
  pub payment_id : String
  pub amount : ℤ

-- The type as the derive macro reads it.
abbrev pub payment_processed : DeriveInput
payment_processed = record {
  attrs =
      record {
        path = "event";
        metas = record { key = "subject"; value = str "events.payments.processed" } ∷ [];
      }
      ∷ [];
  data_ = named_struct (
      record { ident = "id"; ty = type_path false ("MessageId" ∷ []) }
      ∷ record { ident = "payment_id"; ty = type_path false ("String" ∷ []) }
      ∷ record { ident = "amount"; ty = type_path false ("i64" ∷ []) }
      ∷ []);
}

-- The implementation that the macro generates, with serde_json's `to_vec`.
abbrev pub payment_events : (PaymentProcessed → Result Bytes String) → EventApi PaymentProcessed
payment_events to_vec = record {
  subject = λ e. "events.payments.processed";
  message_id = λ e. e.id;
  to_vec = to_vec;
}

-- `PaymentHandler`, on the value of its counter: a u32, which wraps around.
unfoldable pub handle : HandlerCtx → PaymentProcessed → ℕ → Result (Unit {0}) HandlerError × ℕ
handle ctx evt count = (ok tt, (count + 1) % 2 ^ 32)

abbrev pub payment_options : SubscribeOptions
payment_options = record default_options {
  durable = "payment-handler";
  filter = "events.payments.>";
  concurrency = 2;
}

module _ {O H : Type 0} (uuids : UuidApi) (headers : HeaderApi H)
    (to_vec : PaymentProcessed → Result Bytes String) where
  with_event : EventBus (Unit {0}) → PaymentProcessed → App O H Exit
  unfolding publish shutdown
  with_event bus evt = do
    r₁ ← stream (publish uuids headers (payment_events to_vec) bus evt)
    or_fail r₁ (λ _. do
      r₂ ← stream (publish uuids headers (payment_events to_vec) bus evt)
      or_fail r₂ (λ _. do
        perform (sleep (from_secs 1))
        count ← perform load_count
        check (count == 1) (or_fail (shutdown bus) (λ _. ret returned))))

  -- The handle of the subscription lives until the end.
  unfoldable pub main : O → String → App O H Exit
  unfolding with_bus subscribe with_event
  main options url = with_bus options url (λ bus. do
    subscribed ← server (subscribe bus payment_options)
    or_fail subscribed (λ subscription. do
      perform (start_subscription subscription)
      id ← perform new_message_id
      with_event bus (record { id = id; payment_id = "pay-001"; amount = pos 9999 })))
