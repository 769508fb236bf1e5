-- ===== src/Subscriber/Message.antt =====
-- A delivered message, as `process_message` of crates/bus-nats/src/subscriber.rs reads it, and the
-- libraries that it is read with.
use mathlib.Core.Option
use eventbus_rs.Prelude.{ℕ, String, Option, none, some, [], ◌∷◌, Result}
use eventbus_rs.Prelude.Int.{ℤ}
use eventbus_rs.Prelude.Text.{format, to_string}
use eventbus_rs.Core.Id.{MessageId, UuidApi, from_uuid, from_str}
use eventbus_rs.Calls.{Bytes}
use eventbus_rs.Dlq.Headers.{HeaderApi}
use eventbus_rs.Subscriber.Options.{ProcessingOptions}

-- Of the reply subject that JetStream sets: u64 and i64.
pub record Info : Type 0 where
  pub stream_sequence : ℕ
  pub delivered : ℤ

pub record Message (H : Type 0) : Type 0 where
  pub info : Result Info String
  pub headers : Option H
  pub subject : String
  pub payload : Bytes

-- uuid, async-nats' headers, and serde_json at the subscription's event type.
pub record Sdk (E H : Type 0) : Type 0 where
  pub uuids : UuidApi
  pub header_api : HeaderApi H
  pub from_slice : Bytes → Result E String

unfoldable pub fallback_message_id : UuidApi → String → String → ℕ → MessageId
fallback_message_id api stream durable stream_sequence =
    from_uuid (api.new_v5 (format (stream ∷ ":" ∷ durable ∷ ":" ∷ to_string stream_sequence ∷ [])))

module _ {E H : Type 0} (sdk : Sdk E H) where
  -- The id in the message's own header, where it has one that parses.
  unfoldable pub header_id : Message H → Option MessageId
  unfolding from_str Option.bind
  header_id msg = do h ← msg.headers; v ← sdk.header_api.message_id h; from_str sdk.uuids v
    where
      infixl 5 ◌>>=◌
      ◌>>=◌ : {A B : Type 0} → Option A → (A → Option B) → Option B
      m >>= f = Option.bind m f

  unfoldable pub message_id : ProcessingOptions → Message H → Info → MessageId
  unfolding header_id fallback_message_id
  message_id opts msg info = elim (header_id msg) [
    | some id ↦ id
    | none ↦ fallback_message_id sdk.uuids opts.source opts.durable info.stream_sequence
  ]
