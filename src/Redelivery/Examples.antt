-- ===== src/Redelivery/Examples.antt =====
-- Message 42 over its three deliveries: the handler fails twice, then it succeeds, but the answer
-- before the last one is lost.
use eventbus_rs.Prelude.{
  total, ℕ, ◌+◌, ◌≤◌, ◌⊎◌, ◌&&◌, ◌≡◌, ◌≢◌, refl, Bool, true, false, none, some, List, [], ◌∷◌,
  arith, ok, err, Result, ◌==◌, if◌then◌else◌, All,
}
use eventbus_rs.Core.Duration.{from_secs}
use eventbus_rs.Core.Error.{HandlerError, transient, idempotency}
use eventbus_rs.Core.Idempotency.{Marks, claimed, pending}
use eventbus_rs.Effect.Traces.{trace}
use eventbus_rs.Calls.{Call, Reply, handle, now, within, try_claim, mark_done, release}
use eventbus_rs.Calls
use eventbus_rs.Samples.{
  Headers, headers-HeaderLaws, uuids-Readable, dlq, sdk, options, message, last_info,
}
use eventbus_rs.Subscriber.Observe.{Run, verdicts}
use eventbus_rs.Subscriber.Options.{ProcessingOptions}
use eventbus_rs.Subscriber.Message.{Message, header_id}
use eventbus_rs.Subscriber.Process.{process_message}
use eventbus_rs.Core.Id.{from_uuid}
use eventbus_rs.Core.Handler.{HandlerCtx}
use eventbus_rs.Publisher.{
  EventApi, PubCall, PubReply, publish_with_headers, ack_future, publish_event,
}
use eventbus_rs.Redelivery.Steady.{not_permanent}
use eventbus_rs.Redelivery.Published.{Decodes, Publishes, Own, published_handled_once}
use eventbus_rs.Redelivery.Shared.{other_consumer_skips}
use eventbus_rs.Redelivery.{
  Environment, Served, fails, exhausted, acknowledged, ends_with, serve, deliveries,
}
use eventbus_rs.Redelivery.Attempt.{wins, terms, works, stored}
use eventbus_rs.Redelivery.Once.{never_exhausted}
use eventbus_rs.Redelivery.Buried.{buries, handled_or_buried_once, handled_or_buried_at_most_once}
use eventbus_rs.Redelivery.Pending.{Untouched, pending_exhausted}

-- Every request works, and the handler answers this.
abbrev reliable : Result (Unit {0}) HandlerError → (c : Call ℕ Headers) → Reply c
reliable answer (try_claim k) = ok claimed
reliable answer (mark_done k) = ok tt
reliable answer (release k) = ok tt
reliable answer (handle ctx e) = answer
reliable answer now = ok (from_secs 1_700_000_000)
reliable answer Calls.double_ack = ok tt
reliable answer (Calls.ack_with kind) = ok tt
reliable answer (Calls.publish_with_headers s h b) = ok tt
reliable answer Calls.publish_ack = ok tt
reliable answer (within d c) = ok (reliable answer c)

works-reliable :
    (answer : Result (Unit {0}) HandlerError) (c : Call ℕ Headers)
    → works c (reliable answer c) ≡ true
works-reliable answer (within d (try_claim k)) = refl
works-reliable answer (within d (mark_done k)) = refl
works-reliable answer (within d (release k)) = refl
works-reliable answer (within d (handle ctx e)) = refl
works-reliable answer (within d now) = refl
works-reliable answer (within d Calls.double_ack) = refl
works-reliable answer (within d (Calls.ack_with kind)) = refl
works-reliable answer (within d (Calls.publish_with_headers s h b)) = refl
works-reliable answer (within d Calls.publish_ack) = refl
works-reliable answer (within d (within e c)) = refl
works-reliable answer (try_claim k) = refl
works-reliable answer (mark_done k) = refl
works-reliable answer (release k) = refl
works-reliable answer (handle ctx e) = refl
works-reliable answer now = refl
works-reliable answer Calls.double_ack = refl
works-reliable answer (Calls.ack_with kind) = refl
works-reliable answer (Calls.publish_with_headers s h b) = refl
works-reliable answer Calls.publish_ack = refl

fails-reliable :
    (answer : Result (Unit {0}) HandlerError) (c : Call ℕ Headers)
    → fails c (reliable answer c) ≡ false
fails-reliable answer (try_claim k) = refl
fails-reliable answer (mark_done k) = refl
fails-reliable answer (release k) = refl
fails-reliable answer c = refl

abbrev environment : ℕ → Environment ℕ Headers
environment k = record {
  replies = λ h c. reliable (if k == 3 then ok tt else err (transient "busy")) c;
  loses = λ h c. false;
}

up_store :
    (k : ℕ) (h : Run ℕ Headers) (c : Call ℕ Headers) → fails c ((environment k).replies h c) ≡ false
up_store k h c = fails-reliable (if k == 3 then ok tt else err (transient "busy")) c

-- The store answers no request to mark a message done, and does not carry it out.
abbrev no_marking : (c : Call ℕ Headers) → Reply c
no_marking (mark_done k) = err (idempotency "down")
no_marking c = reliable (ok tt) c

abbrev unmarking : Environment ℕ Headers
unmarking = record { replies = λ h c. no_marking c; loses = λ h c. false }

abbrev no_marks : Marks
no_marks u = none

abbrev last_arrives : ℕ → Bool
last_arrives k = k == 3

handled_or_buried_at_most_once_example :
    let all =
      (deliveries sdk options message last_info (λ k. unmarking) last_arrives 3 1 no_marks).0 in
    total wins all + total buries all ≤ 1
handled_or_buried_at_most_once_example =
    handled_or_buried_at_most_once sdk options dlq refl message last_info (λ k. unmarking)
      last_arrives 3 1 no_marks

handled_or_buried_once_example :
    let all = (deliveries sdk options message last_info environment last_arrives 3 1 no_marks).0 in
    total wins all + total buries all ≡ 1
handled_or_buried_once_example =
    handled_or_buried_once sdk options dlq refl message last_info environment last_arrives 2
      no_marks refl up_store (λ h c. works-reliable (ok tt) c) refl

never_exhausted_example :
    (deliveries sdk options message last_info environment last_arrives 3 1 no_marks).1 ≢ exhausted
never_exhausted_example =
    never_exhausted sdk options message last_info environment up_store last_arrives 2 refl
      (λ h c. works-reliable (ok tt) c) no_marks refl refl

abbrev pending_marks : Marks
pending_marks u = some pending

pending_exhausted_example :
    let all = deliveries sdk options message last_info environment last_arrives 3 1 pending_marks in
    (all.1 ≡ exhausted) × All Untouched all.0
pending_exhausted_example =
    pending_exhausted sdk options message last_info environment last_arrives 3 1 pending_marks refl

abbrev other_options : ProcessingOptions
other_options = record options { durable = "audit" }

-- The first consumer has its success but cannot mark the message done.
abbrev one : Served ℕ Headers
one = serve unmarking [] no_marks (process_message sdk options message)

abbrev other : Served ℕ Headers
other = serve (environment 3) [] one.marks (process_message sdk other_options message)

other_consumer_skips_example :
    (wins other.calls + terms other.calls ≡ 0)
    × ((ends_with (verdicts other.calls) ≡ some acknowledged)
        ⊎ ((stored one.calls && stored other.calls) ≡ false))
unfolding serve process_message header_id
other_consumer_skips_example =
    other_consumer_skips sdk options other_options message message last_info last_info unmarking
      (environment 3) no_marks (from_uuid 7) refl refl refl refl refl ended
  where
    ended : ends_with (verdicts one.calls) ≢ none
    ended e = cc

-- Event 9, from its publisher.
abbrev numbers : EventApi ℕ
numbers = record {
  subject = λ _. "events.numbers";
  message_id = λ n. from_uuid n;
  to_vec = λ n. ok (n ∷ []);
}

abbrev up : (c : PubCall Headers) → PubReply c
up (publish_with_headers subject h payload) = ok tt
up ack_future = ok (record { stream = "EVENTS"; sequence = 17; duplicate = false })

abbrev numbered : Message Headers
numbered = record {
  info = ok last_info;
  headers = some (("Nats-Msg-Id", "uuuuuuuuu") ∷ []);
  subject = "events.numbers";
  payload = 9 ∷ [];
}

numbers-Decodes : Decodes sdk numbers
numbers-Decodes n bytes e = ground (arith, e)

numbered-Publishes : Publishes sdk numbers (λ h. h) numbered 9
unfolding publish_event trace
numbered-Publishes = record {
  environment = λ h c. up c;
  headers = ("Nats-Msg-Id", "uuuuuuuuu") ∷ [];
  sends = refl;
  carries = refl;
}

abbrev runs : List (Run ℕ Headers)
runs = (deliveries sdk options numbered last_info environment last_arrives 3 1 no_marks).0

published_handled_once_example :
    All (Own (from_uuid 9) 9) runs × (total wins runs ≡ 1) × (total terms runs ≡ 0)
published_handled_once_example =
    published_handled_once sdk numbers (λ h. h) uuids-Readable headers-HeaderLaws (λ h. refl)
      numbers-Decodes options numbered last_info 9 numbered-Publishes environment up_store
      last_arrives 2 refl no_marks refl steady (λ h ctx. refl)
  where
    steady :
        (k : ℕ) (h : Run ℕ Headers) (ctx : HandlerCtx)
        → not_permanent ((environment k).replies h (handle ctx 9)) ≡ true
    steady k h ctx = ground arith
