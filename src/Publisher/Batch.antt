-- ===== src/Publisher/Batch.antt =====
-- `publish_batch` against its promise: the events go out one by one, and it stops at the first error.
use eventbus_rs.Prelude.{
  suc, ◌≤◌, ◌<◌, ◌≡◌, refl, arith, String, List, [], ◌∷◌, ◌++◌, length, map, take, append_assoc,
  append_nil, Result, ok, err,
}
use eventbus_rs.Core.Error.{BusError}
use eventbus_rs.Core.Id.{UuidApi}
use eventbus_rs.Calls.{Bytes}
use eventbus_rs.Dlq.Headers.{HeaderApi}
use eventbus_rs.Effect.{◌>>=◌}
use eventbus_rs.Effect.Traces.{Event, Oracle, trace, result, Always, Always-run, Always-mono}
use eventbus_rs.Publisher.{
  PublishAck, PubReceipt, receipt, PubCall, PubReply, PubTask, publish_with_headers, ack_future,
  EventApi, event_headers, publish_payload, after_send, after_ack, unless_failed, publish_event,
  publish_from, publish_batch,
}

abbrev pub PubRun : Type 0 → Type 0
PubRun H = List (Event (PubCall H) PubReply)

module _ {H : Type 0} where
  -- What was sent, in order, and the receipts of what was confirmed.
  abbrev pub sent : PubRun H → List (String × H × Bytes)
  sent [] = []
  sent ((publish_with_headers subject headers payload, r) ∷ t) =
      (subject, headers, payload) ∷ sent t
  sent ((ack_future, r) ∷ t) = sent t

  abbrev pub confirmed : PubRun H → List PubReceipt
  confirmed [] = []
  confirmed ((ack_future, ok ack) ∷ t) = receipt ack ∷ confirmed t
  confirmed (_ ∷ t) = confirmed t

module _ {E H : Type 0} (uuids : UuidApi) (headers : HeaderApi H) (event_api : EventApi E) where
  -- An event on the wire, where it can be serialised.
  abbrev pub wire : E → Result (String × H × Bytes) String
  wire event = elim (event_api.to_vec event) [
    | ok payload ↦
        ok (event_api.subject event, event_headers uuids headers event_api event, payload)
    | err e ↦ err e
  ]

  -- What a run of the loop owes, that has these receipts already and these events before it.
  pub record Owes (receipts : List PubReceipt) (events : List E) (t : PubRun H)
      (r : Result (List PubReceipt) BusError) : Type 0 where
    pub in_order : map ok (sent t) ≡ take (length (sent t)) (map wire events)
    pub one_by_one :
        (length (confirmed t) ≤ length (sent t)) × (length (sent t) ≤ suc (length (confirmed t)))
    pub complete :
        (rs : List PubReceipt)
        → r ≡ ok rs
        → (rs ≡ receipts ++ confirmed t)
          × (length (confirmed t) ≡ length events)
          × (length (sent t) ≡ length events)
    pub stopped : (e : BusError) → r ≡ err e → length (confirmed t) < length events

  abbrev pub Delivered : E → PublishAck → Bytes → PubRun H → PubRun H
  Delivered event ack payload t =
      (
        publish_with_headers (event_api.subject event) (event_headers uuids headers event_api event)
            payload,
        ok tt,
      )
      ∷ (ack_future, ok ack)
      ∷ t

  Owes-Delivered :
      (receipts : List PubReceipt) (event : E) (events : List E) (payload : Bytes)
      (ack : PublishAck) (t : PubRun H) (r : Result (List PubReceipt) BusError)
      → event_api.to_vec event ≡ ok payload
      → Owes (receipts ++ receipt ack ∷ []) events t r
      → Owes receipts (event ∷ events) (Delivered event ack payload t) r
  Owes-Delivered receipts event events payload ack t r e o = record {
    in_order = ground (arith, o.in_order);
    one_by_one = ground (arith, o.one_by_one);
    complete = λ rs er.
        ground (arith, o.complete rs er, append_assoc receipts (receipt ack ∷ []) (confirmed t));
    stopped = λ f er. ground (arith, o.stopped f er);
  }

  module _ (receipts : List PubReceipt) (event : E) (events : List E) where
    -- The loop goes on with the rest of the events as it should.
    abbrev RestOwes : Type 0
    RestOwes =
        (ack : PublishAck)
        → Always (Owes (receipts ++ receipt ack ∷ []) events)
            (publish_from uuids headers event_api (receipts ++ receipt ack ∷ []) events)

    abbrev then_rest : Result PubReceipt BusError → PubTask H (Result (List PubReceipt) BusError)
    then_rest =
        unless_failed (λ r. publish_from uuids headers event_api (receipts ++ r ∷ []) events)

    module _ (payload : Bytes) (e : event_api.to_vec event ≡ ok payload) (rest : RestOwes) where
      acked-Owes :
          (r : Result PublishAck String)
          → Always
              (λ t. Owes receipts (event ∷ events) (
                (
                  publish_with_headers
                      (event_api.subject event)
                      (event_headers uuids headers event_api event)
                      payload,
                  ok tt,
                )
                ∷ (ack_future, r)
                ∷ t))
              (then_rest (after_ack uuids headers event_api r))
      unfolding after_ack
      acked-Owes (err x) = record {
        in_order = ground (arith, e);
        one_by_one = ground arith;
        complete = ground arith;
        stopped = ground arith;
      }
      acked-Owes (ok ack) =
          Always-mono (Owes (receipts ++ receipt ack ∷ []) events)
            (λ t. Owes receipts (event ∷ events) (Delivered event ack payload t))
            (publish_from uuids headers event_api (receipts ++ receipt ack ∷ []) events)
            (λ t r o. Owes-Delivered receipts event events payload ack t r e o) (rest ack)

      sent-Owes :
          (r : Result (Unit {0}) String)
          → Always
              (λ t. Owes receipts (event ∷ events) (
                (
                  publish_with_headers
                      (event_api.subject event)
                      (event_headers uuids headers event_api event)
                      payload,
                  r,
                )
                ∷ t))
              (after_send uuids headers event_api r >>= then_rest)
      unfolding after_send
      sent-Owes (err x) = record {
        in_order = ground (arith, e);
        one_by_one = ground arith;
        complete = ground arith;
        stopped = ground arith;
      }
      sent-Owes (ok _) = acked-Owes

    publish_payload-Owes :
        (p : Result Bytes String)
        → event_api.to_vec event ≡ p
        → RestOwes
        → Always
            (Owes receipts (event ∷ events))
            (publish_payload uuids headers event_api event p >>= then_rest)
    unfolding publish_payload
    publish_payload-Owes (err x) e rest = record {
      in_order = ground arith;
      one_by_one = ground arith;
      complete = ground arith;
      stopped = ground arith;
    }
    publish_payload-Owes (ok payload) e rest = sent-Owes payload e rest

  publish_from-Owes :
      (receipts : List PubReceipt) (events : List E)
      → Always (Owes receipts events) (publish_from uuids headers event_api receipts events)
  unfolding publish_from publish_event
  publish_from-Owes receipts [] = record {
    in_order = refl;
    one_by_one = omega arith;
    complete = λ rs e. ground (arith, append_nil receipts);
    stopped = ground arith;
  }
  publish_from-Owes receipts (event ∷ events) =
      publish_payload-Owes receipts event events (event_api.to_vec event) refl
        (λ ack. publish_from-Owes (receipts ++ receipt ack ∷ []) events)

  -- `publish_batch`, whatever the server replies: the events go out in the order given, each as its
  -- subject, its headers and its JSON, and at most one that was sent is not confirmed. If it returns
  -- receipts then every event was sent and confirmed, and they are the confirmations in order; if it
  -- fails then not every event was confirmed.
  pub publish_batch-Owes :
      (events : List E) (o : Oracle (PubCall H) PubReply)
      → Owes [] events
          (trace o [] (publish_batch uuids headers event_api events))
          (result o [] (publish_batch uuids headers event_api events))
  unfolding publish_batch
  publish_batch-Owes events o =
      Always-run (Owes [] events) (publish_from uuids headers event_api [] events)
        (publish_from-Owes [] events) o []
