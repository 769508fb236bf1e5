-- ===== src/Dlq/Names.antt =====
-- The texts that crates/bus-nats/src/dlq.rs writes into a dead letter: the classes and reasons of a
-- failure, and the names of the headers.
use eventbus_rs.Prelude.{String}

abbrev pub class_permanent : String
class_permanent = "permanent"

abbrev pub class_poison : String
class_poison = "poison"

abbrev pub class_transient_exhausted : String
class_transient_exhausted = "transient_exhausted"

abbrev pub reason_invalid_payload : String
reason_invalid_payload = "invalid_payload"

abbrev pub reason_handler_permanent : String
reason_handler_permanent = "handler_permanent"

abbrev pub reason_max_retries_exceeded : String
reason_max_retries_exceeded = "max_retries_exceeded"

abbrev pub hdr_nats_msg_id : String
hdr_nats_msg_id = "Nats-Msg-Id"

abbrev pub hdr_original_subject : String
hdr_original_subject = "X-Original-Subject"

abbrev pub hdr_original_stream : String
hdr_original_stream = "X-Original-Stream"

abbrev pub hdr_original_seq : String
hdr_original_seq = "X-Original-Seq"

abbrev pub hdr_original_msg_id : String
hdr_original_msg_id = "X-Original-Msg-Id"

abbrev pub hdr_failure_reason : String
hdr_failure_reason = "X-Failure-Reason"

abbrev pub hdr_failure_class : String
hdr_failure_class = "X-Failure-Class"

abbrev pub hdr_failure_detail : String
hdr_failure_detail = "X-Failure-Detail"

abbrev pub hdr_retry_count : String
hdr_retry_count = "X-Retry-Count"

abbrev pub hdr_consumer : String
hdr_consumer = "X-Consumer"

abbrev pub hdr_failed_at : String
hdr_failed_at = "X-Failed-At"
