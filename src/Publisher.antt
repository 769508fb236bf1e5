-- ===== src/Publisher.antt =====
-- crates/bus-nats/src/publisher.rs and the traits of crates/bus-core/src/publisher.rs and event.rs.
pub mod Batch
pub mod Identity
mod Examples
use eventbus_rs.Prelude.{ℕ, String, Bool, List, [], ◌∷◌, ◌++◌, Result, ok, err, map_err}
use eventbus_rs.Core.Error.{BusError, publish, serde}
use eventbus_rs.Core.Id.{MessageId, UuidApi, show_id}
use eventbus_rs.Calls.{Bytes}
use eventbus_rs.Dlq.Headers.{HeaderApi}
use eventbus_rs.Effect.{Proc, ret, ◌>>=◌, perform}

-- async-nats' `PublishAck`, the fields that are read, and the trait's receipt.
pub record PublishAck : Type 0 where
  pub stream : String
  pub sequence : ℕ
  pub duplicate : Bool

pub record PubReceipt : Type 0 where
  pub stream : String
  pub sequence : ℕ
  pub duplicate : Bool

pub data PubCall (H : Type 0) : Type 0 where
  publish_with_headers : String → H → Bytes → PubCall H
  ack_future : PubCall H

abbrev pub PubReply : {H : Type 0} → PubCall H → Type 0
PubReply (publish_with_headers subject headers payload) = Result (Unit {0}) String
PubReply ack_future = Result PublishAck String

abbrev pub PubTask : Type 0 → Type 0 → Type 0
PubTask H A = Proc (PubCall H) PubReply A

-- The trait `Event` at the type that is published, with serde_json's `to_vec` for it.
pub record EventApi (E : Type 0) : Type 0 where
  pub subject : E → String
  pub message_id : E → MessageId
  pub to_vec : E → Result Bytes String

-- `Event::aggregate_type` where a type does not define it.
abbrev pub default_aggregate_type : String
default_aggregate_type = "default"

unfoldable pub receipt : PublishAck → PubReceipt
receipt ack = record { stream = ack.stream; sequence = ack.sequence; duplicate = ack.duplicate }

-- The operator `?`.
abbrev unless_failed :
    {H A B : Type 0}
    → (A → PubTask H (Result B BusError))
    → Result A BusError
    → PubTask H (Result B BusError)
unless_failed k (err e) = ret (err e)
unless_failed k (ok a) = k a

module _ {E H : Type 0} (uuids : UuidApi) (headers : HeaderApi H) (event_api : EventApi E) where
  unfoldable pub event_headers : E → H
  unfolding show_id
  event_headers event =
      headers.insert "Nats-Msg-Id" (show_id uuids (event_api.message_id event)) headers.new

  after_ack : Result PublishAck String → Result PubReceipt BusError
  unfolding receipt
  after_ack (err e) = err (BusError.publish e)
  after_ack (ok ack) = ok (receipt ack)

  after_send : Result (Unit {0}) String → PubTask H (Result PubReceipt BusError)
  unfolding after_ack
  after_send (err e) = ret (err (BusError.publish e))
  after_send (ok _) = do ack ← perform ack_future; ret (after_ack ack)

  publish_payload : E → Result Bytes String → PubTask H (Result PubReceipt BusError)
  unfolding after_send event_headers
  publish_payload event (err e) = ret (err (serde e))
  publish_payload event (ok payload) = do
    sent ← perform (publish_with_headers (event_api.subject event) (event_headers event) payload)
    after_send sent

  unfoldable pub publish_event : E → PubTask H (Result PubReceipt BusError)
  unfolding publish_payload
  publish_event event = publish_payload event (event_api.to_vec event)

  -- The loop of `publish_batch`, with the receipts so far; `?` leaves it.
  publish_from : List PubReceipt → List E → PubTask H (Result (List PubReceipt) BusError)
  unfolding publish_event
  publish_from receipts [] = ret (ok receipts)
  publish_from receipts (event ∷ events) = do
    r ← publish_event event
    unless_failed (λ receipt. publish_from (receipts ++ receipt ∷ []) events) r

  unfoldable pub publish_batch : List E → PubTask H (Result (List PubReceipt) BusError)
  unfolding publish_from
  publish_batch events = publish_from [] events
