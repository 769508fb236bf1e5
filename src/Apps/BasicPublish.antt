-- ===== src/Apps/BasicPublish.antt =====
-- examples/01-basic-publish/src/main.rs.
use eventbus_rs.Prelude.{false, String, [], ◌∷◌, Result, not}
use eventbus_rs.Prelude.Int.{ℤ, pos}
use eventbus_rs.Core.Id.{MessageId, UuidApi}
use eventbus_rs.Calls.{Bytes}
use eventbus_rs.Dlq.Headers.{HeaderApi}
use eventbus_rs.Derive.{str, type_path, named_struct, DeriveInput}
use eventbus_rs.Publisher.{EventApi}
use eventbus_rs.Effect.{ret, ◌>>=◌, perform}
use eventbus_rs.Bus.{EventBus, publish, shutdown}
use eventbus_rs.Apps.{App, Exit, returned, or_fail, stream, check, with_bus, new_message_id}

pub record OrderCreated : Type 0 where
  pub id : MessageId
  pub order_id : String
  pub total : ℤ

-- The type as the derive macro reads it.
abbrev pub order_created : DeriveInput
order_created = record {
  attrs =
      record {
        path = "event";
        metas =
            record { key = "subject"; value = str "events.orders.created" }
            ∷ record { key = "aggregate"; value = str "order" }
            ∷ [];
      }
      ∷ [];
  data_ = named_struct (
      record { ident = "id"; ty = type_path false ("MessageId" ∷ []) }
      ∷ record { ident = "order_id"; ty = type_path false ("String" ∷ []) }
      ∷ record { ident = "total"; ty = type_path false ("i64" ∷ []) }
      ∷ []);
}

-- The implementation that the macro generates, with serde_json's `to_vec`.
abbrev pub order_events : (OrderCreated → Result Bytes String) → EventApi OrderCreated
order_events to_vec = record {
  subject = λ e. "events.orders.created";
  message_id = λ e. e.id;
  to_vec = to_vec;
}

module _ {O H : Type 0} (uuids : UuidApi) (headers : HeaderApi H)
    (to_vec : OrderCreated → Result Bytes String) where
  unfoldable pub with_event : EventBus (Unit {0}) → OrderCreated → App O H Exit
  unfolding publish shutdown
  with_event bus evt = do
    r₁ ← stream (publish uuids headers (order_events to_vec) bus evt)
    or_fail r₁ (λ first. do
      r₂ ← stream (publish uuids headers (order_events to_vec) bus evt)
      or_fail r₂ (λ second.
          check (not first.duplicate)
            (check second.duplicate (or_fail (shutdown bus) (λ _. ret returned)))))

  unfoldable pub main : O → String → App O H Exit
  unfolding with_bus with_event
  main options url = with_bus options url (λ bus. do
    id ← perform new_message_id
    with_event bus (record { id = id; order_id = "ord-001"; total = pos 4999 }))
