-- ===== src/Dlq/Examples.antt =====
-- The names and headers of dead letters on concrete input.
use eventbus_rs.Prelude.{ℕ, some, [], ◌∷◌, ok, ◌≡◌, ◌≢◌, refl}
use eventbus_rs.Prelude.Text.{to_string}
use eventbus_rs.Core.Duration.{from_secs}
use eventbus_rs.Effect.Traces.{trace, result}
use eventbus_rs.Samples.{Headers, Replies, answering}
use eventbus_rs.Dlq.Publish.{publish_to_dlq}
use eventbus_rs.Dlq.Confirmation.{Confirms, publish_to_dlq-Confirms}
use eventbus_rs.Dlq.Config.{dlq_stream_name, dlq_subject}
use eventbus_rs.Dlq.Headers.{FailureInfo, dedup_id}
use eventbus_rs.Dlq.Identity.{dlq_stream_name_shared}

abbrev replies : Replies
replies = answering (ok tt)

abbrev failure : FailureInfo
failure = record {
  original_subject = "events.orders";
  original_stream = "EVENTS";
  original_seq = 42;
  original_msg_id = "uuuuuuu";
  consumer = "worker";
  delivered = 3;
  failure_reason = "max_retries_exceeded";
  failure_class = "transient_exhausted";
  failure_detail = "timeout";
}

dedup_id_text : dedup_id failure ≡ "EVENTS:42:worker:3"
unfolding dedup_id to_string
dedup_id_text = refl

dlq_stream_name_text : dlq_stream_name "EVENTS" "payments-worker" ≡ "DLQ_EVENTS_payments-worker"
unfolding dlq_stream_name
dlq_stream_name_text = refl

dlq_stream_name_shared_example :
    (dlq_stream_name "orders_eu" "audit" ≡ dlq_stream_name "orders" "eu_audit")
    × (dlq_subject "orders_eu" "audit" ≢ dlq_subject "orders" "eu_audit")
dlq_stream_name_shared_example = dlq_stream_name_shared "orders" "eu" "audit" refl refl

-- The ack does not come.
publish_to_dlq-Confirms_example :
    Confirms {E = ℕ} "dlq.EVENTS.worker"
      (9 ∷ [])
      []
      (some (from_secs 2))
      (trace replies [] (publish_to_dlq "dlq.EVENTS.worker" (9 ∷ []) [] (some (from_secs 2))))
      (result replies [] (publish_to_dlq "dlq.EVENTS.worker" (9 ∷ []) [] (some (from_secs 2))))
publish_to_dlq-Confirms_example =
    publish_to_dlq-Confirms ℕ Headers "dlq.EVENTS.worker" (9 ∷ []) [] (some (from_secs 2)) replies
      []
