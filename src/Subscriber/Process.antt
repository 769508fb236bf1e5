-- ===== src/Subscriber/Process.antt =====
-- `process_message` of crates/bus-nats/src/subscriber.rs: one delivery of a message.
pub mod Retry
use eventbus_rs.Prelude.{String, Result, ok, err, Bool, ◌&&◌, if◌then◌else◌}
use eventbus_rs.Prelude.Int.{ℤ, pos, ltb_ℤ, leb_ℤ, as_u64}
use eventbus_rs.Core.Duration.{from_secs}
use eventbus_rs.Core.Error.{HandlerError, transient, permanent, BusError}
use eventbus_rs.Core.Id.{MessageId}
use eventbus_rs.Core.Idempotency.{ClaimOutcome, claimed, already_pending, already_done}
use eventbus_rs.Core.Handler.{HandlerCtx}
use eventbus_rs.Effect.{ret, ◌>>=◌, ◌>>◌, perform}
use eventbus_rs.Calls.{Task, try_claim, mark_done, handle}
use eventbus_rs.Dlq.Names.{
  class_permanent, class_poison, class_transient_exhausted, reason_invalid_payload,
  reason_handler_permanent, reason_max_retries_exceeded,
}
use eventbus_rs.Subscriber.Options.{ProcessingOptions}
use eventbus_rs.Subscriber.Message.{Message, Info, Sdk, message_id}
use eventbus_rs.Subscriber.Backoff.{compute_backoff}
use eventbus_rs.Subscriber.Settle.{
  TerminalFailure, double_ack_or_warn, nak_or_warn, release_and_nak, handle_terminal_failure,
}

module _ {E H : Type 0} (sdk : Sdk E H) (opts : ProcessingOptions) (msg : Message H) where
  terminal_failure : MessageId → Info → String → String → String → TerminalFailure
  terminal_failure msg_id info reason class detail = record {
    msg_id = msg_id;
    stream_sequence = info.stream_sequence;
    delivered = as_u64 info.delivered;
    failure_reason = reason;
    failure_class = class;
    failure_detail = detail;
  }

  -- The last delivery that JetStream makes; zero and -1 stand for no limit.
  unfoldable pub is_final_attempt : ℤ → Bool
  is_final_attempt attempt = ltb_ℤ (pos 0) opts.max_deliver && leb_ℤ opts.max_deliver attempt

  -- `match handler.handle(ctx, event).await`.
  settle : MessageId → Info → Result (Unit {0}) HandlerError → Task E H (Unit {0})
  unfolding double_ack_or_warn release_and_nak handle_terminal_failure terminal_failure
      is_final_attempt
  settle msg_id info (ok _) = do perform (mark_done msg_id); double_ack_or_warn
  settle msg_id info (err (transient reason)) =
      if is_final_attempt info.delivered
      then handle_terminal_failure sdk opts msg (
          terminal_failure msg_id info reason_max_retries_exceeded class_transient_exhausted reason)
      else release_and_nak msg_id (compute_backoff opts.backoff info.delivered)
  settle msg_id info (err (permanent reason)) =
      handle_terminal_failure sdk opts msg
        (terminal_failure msg_id info reason_handler_permanent class_permanent reason)

  pub handler_ctx : MessageId → Info → HandlerCtx
  handler_ctx msg_id info = record {
    msg_id = msg_id;
    stream_seq = info.stream_sequence;
    delivered = as_u64 info.delivered;
    subject = msg.subject;
  }

  -- The event is decoded only under a claim.
  dispatch : MessageId → Info → Result E String → Task E H (Unit {0})
  unfolding settle handler_ctx
  dispatch msg_id info (err e) =
      handle_terminal_failure sdk opts msg
        (terminal_failure msg_id info reason_invalid_payload class_poison e)
  dispatch msg_id info (ok event) = do
    done ← perform (handle (handler_ctx msg_id info) event)
    settle msg_id info done

  -- `match store.try_claim(&msg_id).await`.
  after_claim : MessageId → Info → Result ClaimOutcome BusError → Task E H (Unit {0})
  unfolding nak_or_warn double_ack_or_warn dispatch
  after_claim msg_id info (ok claimed) = dispatch msg_id info (sdk.from_slice msg.payload)
  after_claim msg_id info (ok already_pending) = nak_or_warn (from_secs 1)
  after_claim msg_id info (ok already_done) = double_ack_or_warn
  after_claim msg_id info (err _) = nak_or_warn (from_secs 1)

  with_info : Result Info String → Task E H (Unit {0})
  unfolding after_claim message_id
  with_info (err _) = ret tt
  with_info (ok info) = do
    let msg_id = message_id sdk opts msg info
    outcome ← perform (try_claim msg_id)
    after_claim msg_id info outcome

  unfoldable pub process_message : Task E H (Unit {0})
  unfolding with_info
  process_message = with_info msg.info
