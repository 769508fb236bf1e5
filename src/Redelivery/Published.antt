-- ===== src/Redelivery/Published.antt =====
-- An event from `publish` of crates/bus-nats/src/publisher.rs, over all deliveries of its message, to
-- the handler.
use eventbus_rs.Prelude.{
  total, ℕ, zero, suc, ◌+◌, ◌≡◌, refl, sym, subst, arith, Bool, true, false, none, some, List, [],
  ◌∷◌, ok, All,
}
use eventbus_rs.Prelude.Int.{pos}
use eventbus_rs.Core.Handler.{HandlerCtx}
use eventbus_rs.Core.Id.{MessageId, Readable}
use eventbus_rs.Core.Idempotency.{Marks}
use eventbus_rs.Effect.Traces.{Oracle, trace}
use eventbus_rs.Calls.{Bytes, Call, handle}
use eventbus_rs.Dlq.Config.{DlqOptions}
use eventbus_rs.Dlq.Headers.{HeaderLaws}
use eventbus_rs.Publisher.{PubCall, PubReply, EventApi, event_headers, publish_event}
use eventbus_rs.Publisher.Batch.{sent}
use eventbus_rs.Publisher.Identity.{Carries, message_id-published}
use eventbus_rs.Subscriber.Options.{ProcessingOptions}
use eventbus_rs.Subscriber.Message.{Message, Info, Sdk, message_id}
use eventbus_rs.Subscriber.Observe.{Run}
use eventbus_rs.Subscriber.Process.{process_message}
use eventbus_rs.Redelivery.{Environment, fails, serve, delivery, info_at, attempt, deliveries}
use eventbus_rs.Redelivery.Attempt.{wins, works, is_ok, terms}
use eventbus_rs.Redelivery.Buried.{buries, handled_or_buried_once}
use eventbus_rs.Redelivery.Steady.{not_permanent, steady_handled_once}

module _ {E H : Type 0} where
  -- What the handler is called on.
  abbrev pub handlings : Run E H → List (HandlerCtx × E)
  handlings [] = []
  handlings ((handle ctx e, r) ∷ t) = (ctx, e) ∷ handlings t
  handlings ((c, r) ∷ t) = handlings t

-- serde_json: the consumer's event type reads what the publisher's writes.
abbrev pub Decodes : {E H : Type 0} → Sdk E H → EventApi E → Type 0
Decodes {E} sdk event_api =
    (event : E) (bytes : Bytes)
    → event_api.to_vec event ≡ ok bytes
    → sdk.from_slice bytes ≡ ok event

module _ {E H : Type 0} (sdk : Sdk E H) (event_api : EventApi E) (wire : H → H)
    (msg : Message H) where
  -- The message is what some run of `publish` for the event has sent.
  pub record Publishes (event : E) : Type 0 where
    pub environment : Oracle (PubCall H) PubReply
    pub headers : H
    pub sends :
        sent (trace environment [] (publish_event sdk.uuids sdk.header_api event_api event))
        ≡ (msg.subject, headers, msg.payload) ∷ []
    pub carries : msg.headers ≡ some (wire headers)

  -- What a message of an event says.
  record Says (event : E) : Type 0 where
    subject : msg.subject ≡ event_api.subject event
    headers : msg.headers ≡ some (wire (event_headers sdk.uuids sdk.header_api event_api event))
    payload : event_api.to_vec event ≡ ok msg.payload

  Publishes-Says : (event : E) → Publishes event → Says event
  unfolding publish_event trace
  Publishes-Says event p = record {
    subject = ground (arith, p.sends);
    headers = ground (arith, p.sends, p.carries);
    payload = ground (arith, p.sends);
  }

module _ {E H : Type 0} (id : MessageId) (event : E) where
  -- The handler is called on this event only, and under this id.
  abbrev pub Own : Run E H → Type 0
  Own t = All (λ (c : HandlerCtx × E). (c.0.msg_id ≡ id) × (c.1 ≡ event)) (handlings t)

module _ {E H : Type 0} (sdk : Sdk E H) (opts : ProcessingOptions) where
  attempt-Own :
      (msg : Message H) (info : Info) (event : E)
      → msg.info ≡ ok info
      → sdk.from_slice msg.payload ≡ ok event
      → (o : Environment E H) (marks : Marks)
      → Own
          (message_id sdk opts msg info)
          event
          (serve o [] marks (process_message sdk opts msg)).calls
  unfolding serve process_message
  attempt-Own msg info event known decoded o marks = ground arith

  module _ (msg : Message H) (info : Info) (event : E)
      (decoded : sdk.from_slice msg.payload ≡ ok event) (o : ℕ → Environment E H)
      (arrives : ℕ → Bool) where
    deliveries-Own :
        (n k : ℕ) (marks : Marks)
        → All
            (Own (message_id sdk opts msg info) event)
            (deliveries sdk opts msg info o arrives n k marks).0
    unfolding deliveries message_id
    deliveries-Own zero k marks = tt
    deliveries-Own (suc n) k marks =
        let s = attempt sdk opts msg info o k marks in
        ground (
          arith,
          attempt-Own (delivery msg info k) (info_at msg info k) event refl decoded (o k) marks,
          deliveries-Own n (suc k) s.marks,
        )

module _ {E H : Type 0} (sdk : Sdk E H) (event_api : EventApi E) (wire : H → H)
    (readable : Readable sdk.uuids) (laws : HeaderLaws sdk.header_api)
    (carried : Carries sdk.header_api wire) (decodes : Decodes sdk event_api)
    (opts : ProcessingOptions) (msg : Message H) (info : Info) (event : E)
    (published : Publishes sdk event_api wire msg event) (o : ℕ → Environment E H)
    (reliable : (k : ℕ) (h : Run E H) (c : Call E H) → fails c ((o k).replies h c) ≡ false)
    (arrives : ℕ → Bool) (m : ℕ) (limit : opts.max_deliver ≡ pos (suc m)) (marks : Marks)
    (fresh : marks (event_api.message_id event).uuid ≡ none) where
  abbrev id : MessageId
  id = event_api.message_id event

  says : Says sdk event_api wire msg event
  says = Publishes-Says sdk event_api wire msg event published

  key : message_id sdk opts msg info ≡ id
  key =
      message_id-published sdk event_api wire readable laws carried event opts msg info says.headers

  unmarked : marks (message_id sdk opts msg info).uuid ≡ none
  unmarked = subst (λ (i : MessageId). marks i.uuid ≡ none) (sym key) fresh

  own : (n k : ℕ) → All (Own id event) (deliveries sdk opts msg info o arrives n k marks).0
  own n k =
      subst
        (λ (i : MessageId). All (Own i event) (deliveries sdk opts msg info o arrives n k marks).0)
        key
        (deliveries-Own sdk opts msg info event (decodes event msg.payload says.payload) o arrives n
          k marks)

  -- From the publisher to the handler, with a DLQ: a message that `publish` has sent for an event,
  -- delivered up to a positive `max_deliver` times, one delivery after the other, over a store that has no
  -- mark for the event's id and whose keys do not expire meanwhile. If no request to the store fails, then whatever the handler, the clock and JetStream do,
  -- and whichever answers get lost, if the publishes of the last delivery work, then the handler is
  -- called on that event only and under the event's own id, and either it succeeds once and no dead
  -- letter is confirmed, or one delivery gets its dead letter confirmed and it never succeeds. The uuid
  -- crate reads what it prints, the headers arrive, and serde_json reads back the event.
  pub published_handled_or_buried :
      (dlq : DlqOptions)
      → opts.dlq_opts ≡ some dlq
      → ((h : Run E H) (c : Call E H) → works c ((o (suc m)).replies h c) ≡ true)
      → let all = (deliveries sdk opts msg info o arrives (suc m) 1 marks).0 in
        All (Own id event) all × (total wins all + total buries all ≡ 1)
  published_handled_or_buried dlq with_dlq w = (
    own (suc m) 1,
    handled_or_buried_once sdk opts dlq with_dlq msg info o arrives m marks limit reliable w
        unmarked,
  )

  -- From the publisher to the handler: a message that `publish` has sent for an event, delivered up to
  -- a positive `max_deliver` times, one delivery after the other, over a store that has no mark for
  -- the event's id and whose keys do not expire meanwhile. If no request to the store fails, and the handler never fails on the event for good and succeeds on
  -- it in the last delivery, then over all deliveries it is called on that event only, under the event's
  -- own id, and succeeds exactly once, and the message is never terminated, whatever JetStream and the
  -- clock do and whichever answers get lost. The uuid crate reads what it prints, the headers arrive, and
  -- serde_json reads back the event.
  pub published_handled_once :
      ((k : ℕ) (h : Run E H) (ctx : HandlerCtx)
        → not_permanent ((o k).replies h (handle ctx event)) ≡ true)
      → ((h : Run E H) (ctx : HandlerCtx) → is_ok ((o (suc m)).replies h (handle ctx event)) ≡ true)
      → let all = (deliveries sdk opts msg info o arrives (suc m) 1 marks).0 in
        All (Own id event) all × (total wins all ≡ 1) × (total terms all ≡ 0)
  published_handled_once steady last =
      let d =
        steady_handled_once sdk opts msg info event (decodes event msg.payload says.payload) o
          reliable arrives m limit steady last marks unmarked in
      (own (suc m) 1, d.0, d.1)
