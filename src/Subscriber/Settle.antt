-- ===== src/Subscriber/Settle.antt =====
-- The helpers of crates/bus-nats/src/subscriber.rs that end the processing of a message. A failed
-- store call or acknowledgement is logged, and the code goes on.
use eventbus_rs.Prelude.{String, ℕ, Result, ok, err, Option, none, some}
use eventbus_rs.Core.Duration.{Duration}
use eventbus_rs.Core.Error.{BusError}
use eventbus_rs.Core.Id.{MessageId, show_id}
use eventbus_rs.Effect.{ret, ◌>>=◌, ◌>>◌, perform}
use eventbus_rs.Calls.{Task, mark_done, release}
use eventbus_rs.Ack
use eventbus_rs.Dlq.Config.{DlqOptions, dlq_subject}
use eventbus_rs.Dlq.Headers.{FailureInfo, build_dlq_headers}
use eventbus_rs.Dlq.Publish.{publish_to_dlq}
use eventbus_rs.Subscriber.Options.{ProcessingOptions}
use eventbus_rs.Subscriber.Message.{Message, Sdk}

pub record TerminalFailure : Type 0 where
  pub msg_id : MessageId
  pub stream_sequence : ℕ
  pub delivered : ℕ
  pub failure_reason : String
  pub failure_class : String
  pub failure_detail : String

module _ {E H : Type 0} where
  unfoldable pub double_ack_or_warn : Task E H (Unit {0})
  unfolding Ack.double_ack
  double_ack_or_warn = do Ack.double_ack; ret tt

  unfoldable pub nak_or_warn : Duration → Task E H (Unit {0})
  unfolding Ack.nak_with_delay
  nak_or_warn delay = do Ack.nak_with_delay delay; ret tt

  unfoldable pub term_or_warn : Task E H (Unit {0})
  unfolding Ack.term
  term_or_warn = do Ack.term; ret tt

  unfoldable pub mark_done_and_term : MessageId → Task E H (Unit {0})
  unfolding term_or_warn
  mark_done_and_term msg_id = do perform (mark_done msg_id); term_or_warn

  unfoldable pub release_and_nak : MessageId → Duration → Task E H (Unit {0})
  unfolding nak_or_warn
  release_and_nak msg_id delay = do perform (release msg_id); nak_or_warn delay

  -- What `handle_terminal_failure` does with the result of the publish.
  after_publish : MessageId → Duration → Result (Unit {0}) BusError → Task E H (Unit {0})
  unfolding mark_done_and_term release_and_nak
  after_publish msg_id delay (ok _) = mark_done_and_term msg_id
  after_publish msg_id delay (err _) = release_and_nak msg_id delay

module _ {E H : Type 0} (sdk : Sdk E H) where
  unfoldable pub failure_info : ProcessingOptions → Message H → TerminalFailure → FailureInfo
  unfolding show_id
  failure_info opts msg failure = record {
    original_subject = msg.subject;
    original_stream = opts.source;
    original_seq = failure.stream_sequence;
    original_msg_id = show_id sdk.uuids failure.msg_id;
    consumer = opts.durable;
    delivered = failure.delivered;
    failure_reason = failure.failure_reason;
    failure_class = failure.failure_class;
    failure_detail = failure.failure_detail;
  }

  bury : ProcessingOptions → Message H → TerminalFailure → Option DlqOptions → Task E H (Unit {0})
  unfolding failure_info build_dlq_headers dlq_subject publish_to_dlq mark_done_and_term
      after_publish
  bury opts msg failure none = mark_done_and_term failure.msg_id
  bury opts msg failure (some dlq_opts) = do
    headers ← build_dlq_headers sdk.header_api (failure_info opts msg failure)
    published ←
        publish_to_dlq (dlq_subject opts.source opts.durable) msg.payload headers
          dlq_opts.config.publish_ack_timeout
    after_publish failure.msg_id dlq_opts.config.failure_nak_delay published

  unfoldable pub handle_terminal_failure :
      ProcessingOptions → Message H → TerminalFailure → Task E H (Unit {0})
  unfolding bury
  handle_terminal_failure opts msg failure = bury opts msg failure opts.dlq_opts
