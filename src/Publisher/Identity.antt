-- ===== src/Publisher/Identity.antt =====
-- The id of an event from the publisher to the consumer.
use eventbus_rs.Prelude.{◌≡◌, arith, some}
use eventbus_rs.Core.Id.{Readable, show_id, from_str}
use eventbus_rs.Dlq.Headers.{HeaderApi, HeaderLaws}
use eventbus_rs.Subscriber.Message.{Message, Info, Sdk, message_id}
use eventbus_rs.Subscriber.Options.{ProcessingOptions}
use eventbus_rs.Publisher.{EventApi, event_headers}

-- What the wire does to headers: async-nats reads the standard name `Nats-Msg-Id` as the typed header,
-- whatever way it was written.
abbrev pub Carries : {H : Type 0} → HeaderApi H → (H → H) → Type 0
Carries {H} api wire = (h : H) → api.message_id (wire h) ≡ api.get "Nats-Msg-Id" h

module _ {E H : Type 0} (sdk : Sdk E H) (event_api : EventApi E) (wire : H → H) where
  -- An event is processed under the id that it was published with, by every consumer: a message that
  -- carries the headers of `publish` has the event's own id for its idempotency key. The uuid crate
  -- reads what it prints, and async-nats' headers keep what is inserted, across the wire too.
  pub message_id-published :
      Readable sdk.uuids
      → HeaderLaws sdk.header_api
      → Carries sdk.header_api wire
      → (event : E) (opts : ProcessingOptions) (msg : Message H) (info : Info)
      → msg.headers ≡ some (wire (event_headers sdk.uuids sdk.header_api event_api event))
      → message_id sdk opts msg info ≡ event_api.message_id event
  unfolding message_id event_headers from_str
  message_id-published readable laws carries event opts msg info h = ground (
    arith,
    h,
    carries (event_headers sdk.uuids sdk.header_api event_api event),
    laws.get-insert "Nats-Msg-Id" (show_id sdk.uuids (event_api.message_id event)) "Nats-Msg-Id"
        sdk.header_api.new,
    readable (event_api.message_id event).uuid,
  )
