-- ===== src/Publisher/Examples.antt =====
-- Publishing on concrete replies. An event is a number: its id, and the byte of its payload.
use eventbus_rs.Prelude.{
  ℕ, ◌≡◌, refl, String, false, some, [], ◌∷◌, Result, ok, err, if◌then◌else◌, ◌==◌,
}
use eventbus_rs.Core.Id.{from_uuid}
use eventbus_rs.Calls.{Bytes}
use eventbus_rs.Effect.Traces.{Oracle, trace, result}
use eventbus_rs.Samples.{
  Headers, uuids, uuids-Readable, headers, headers-HeaderLaws, sdk, options, last_info,
}
use eventbus_rs.Subscriber.Message.{Message, message_id}
use eventbus_rs.Publisher.{
  PubCall, PubReply, publish_with_headers, ack_future, EventApi, event_headers, publish_batch,
}
use eventbus_rs.Publisher.Batch.{Owes, PubRun, sent, publish_batch-Owes}
use eventbus_rs.Publisher.Identity.{message_id-published}

abbrev to_vec : ℕ → Result Bytes String
to_vec n = if n == 0 then err "key must be a string" else ok (n ∷ [])

abbrev numbers : EventApi ℕ
numbers = record { subject = λ _. "events.numbers"; message_id = λ n. from_uuid n; to_vec = to_vec }

abbrev reply : (c : PubCall Headers) → PubReply c
reply (publish_with_headers subject h payload) = ok tt
reply ack_future = ok (record { stream = "EVENTS"; sequence = 17; duplicate = false })

abbrev up : Oracle (PubCall Headers) PubReply
up h c = reply c

-- The second event cannot be serialised: one is sent.
abbrev run : PubRun Headers
run = trace up [] (publish_batch uuids headers numbers (3 ∷ 0 ∷ 5 ∷ []))

sent-run : sent run ≡ ("events.numbers", ("Nats-Msg-Id", "uuu") ∷ [], 3 ∷ []) ∷ []
unfolding trace publish_batch event_headers
sent-run = refl

publish_batch-Owes_example :
    Owes uuids headers numbers []
      (3 ∷ 0 ∷ 5 ∷ [])
      run
      (result up [] (publish_batch uuids headers numbers (3 ∷ 0 ∷ 5 ∷ [])))
publish_batch-Owes_example = publish_batch-Owes uuids headers numbers (3 ∷ 0 ∷ 5 ∷ []) up

abbrev delivered : Message Headers
delivered = record {
  info = ok last_info;
  headers = some (event_headers uuids headers numbers 3);
  subject = "events.numbers";
  payload = 3 ∷ [];
}

message_id-published_example : message_id sdk options delivered last_info ≡ from_uuid 3
message_id-published_example =
    message_id-published sdk numbers (λ h. h) uuids-Readable headers-HeaderLaws (λ h. refl) 3
      options delivered last_info refl
