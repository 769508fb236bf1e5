-- ===== src/Apps/Examples.antt =====
-- The programs of examples/ against a server that carries out every request.
use eventbus_rs.Prelude.{ℕ, ◌≡◌, refl, String, Bool, true, false, Option, some, [], ◌∷◌, Result, ok}
use eventbus_rs.Core.Id.{from_uuid}
use eventbus_rs.Calls.{Bytes}
use eventbus_rs.Derive.{derive_event_impl, implementation}
use eventbus_rs.Derive.Template.{to_owned, build_subject_expression}
use eventbus_rs.Effect.Traces.{Oracle, trace, result}
use eventbus_rs.Inbox.NatsKv.{KvCall, KvReply, create_key_value, create, put, get, purge}
use eventbus_rs.Publisher.{default_aggregate_type, publish_with_headers, ack_future}
use eventbus_rs.Samples.{Headers, uuids, headers, headers-HeaderLaws}
use eventbus_rs.Apps.{
  AppCall, AppReply, on_server, on_bucket, on_stream, subscribe_advisories, new_message_id,
  start_subscription, sleep, load_count, returned,
}
use eventbus_rs.Apps.BasicPublish.{order_created, main}
use eventbus_rs.Apps.IdempotentHandler.{payment_processed}
use eventbus_rs.Apps.IdempotentHandler
use eventbus_rs.Apps.Passes.{AppRun, main-Passes}

abbrev parse_ident : String → Option String
parse_ident s = some s

-- What the macro makes of the two types.
derive-order_created :
    derive_event_impl parse_ident order_created
    ≡ implementation
        (record { subject = to_owned "events.orders.created"; aggregate_type = "order" })
unfolding derive_event_impl build_subject_expression
derive-order_created = refl

derive-payment_processed :
    derive_event_impl parse_ident payment_processed
    ≡ implementation (record {
      subject = to_owned "events.payments.processed";
      aggregate_type = default_aggregate_type;
    })
unfolding derive_event_impl build_subject_expression
derive-payment_processed = refl

abbrev bucket_reply : (c : KvCall) → KvReply c
bucket_reply (create_key_value cfg) = ok tt
bucket_reply (create key value) = ok tt
bucket_reply (put key value) = ok tt
bucket_reply (get key) = ok (some "done")
bucket_reply (purge key) = ok tt

abbrev acked_before : AppRun ℕ Headers → Bool
acked_before [] = false
acked_before ((on_stream ack_future, r) ∷ t) = true
acked_before (e ∷ t) = acked_before t

-- Connection options are numbers, and the new id is always 7.
abbrev honest : Oracle (AppCall ℕ Headers) AppReply
honest h (on_server c) = ok tt
honest h (on_bucket c) = bucket_reply c
honest h (on_stream (publish_with_headers s hd b)) = ok tt
honest h (on_stream ack_future) =
    ok (record { stream = "EVENTS"; sequence = 1; duplicate = acked_before h })
honest h (subscribe_advisories filter) = ok tt
honest h new_message_id = from_uuid 7
honest h (start_subscription subscription) = tt
honest h (sleep d) = tt
honest h load_count = 1

abbrev as_bytes : {A : Type 0} → A → Result Bytes String
as_bytes a = ok (1 ∷ [])

main-Passes_example : result honest [] (main uuids headers as_bytes 0 "nats://localhost") ≡ returned
unfolding trace main
main-Passes_example =
    main-Passes ℕ uuids headers headers-HeaderLaws as_bytes (λ e. refl) honest 0 "nats://localhost"
      refl refl

run-IdempotentHandler :
    result honest [] (IdempotentHandler.main uuids headers as_bytes 0 "nats://localhost") ≡ returned
unfolding result IdempotentHandler.main
run-IdempotentHandler = refl
