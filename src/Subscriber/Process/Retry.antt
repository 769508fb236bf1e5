-- ===== src/Subscriber/Process/Retry.antt =====
-- A delivery whose handler is to be tried again, call by call.
use eventbus_rs.Prelude.{String, ◌≡◌, refl, ap, false, Result, ok, err}
use eventbus_rs.Core.Error.{HandlerError, transient, BusError}
use eventbus_rs.Core.Id.{MessageId}
use eventbus_rs.Core.Idempotency.{ClaimOutcome, claimed}
use eventbus_rs.Core.Handler.{HandlerCtx}
use eventbus_rs.Effect.{call}
use eventbus_rs.Calls.{Task, try_claim, release, handle}
use eventbus_rs.Subscriber.Options.{ProcessingOptions}
use eventbus_rs.Subscriber.Message.{Message, Info, Sdk, message_id}
use eventbus_rs.Subscriber.Backoff.{compute_backoff}
use eventbus_rs.Subscriber.Settle.{nak_or_warn, release_and_nak}
use eventbus_rs.Subscriber.Process.{
  process_message, with_info, is_final_attempt, after_claim, settle, handler_ctx, dispatch,
}

-- The worker claims first, and runs the handler on the event if it wins the claim.
pub record Handles {E H : Type 0} (task : Task E H (Unit {0})) (id : MessageId) (event : E)
    : Type 0 where
  pub ctx : HandlerCtx
  pub claim : Result ClaimOutcome BusError → Task E H (Unit {0})
  pub settled : Result (Unit {0}) HandlerError → Task E H (Unit {0})
  pub own : ctx.msg_id ≡ id
  pub claims : task ≡ call (try_claim id) claim
  pub handles : claim (ok claimed) ≡ call (handle ctx event) settled

-- It releases its claim when the handler fails for a while.
pub record Retries {E H : Type 0} (task : Task E H (Unit {0})) (id : MessageId) (event : E)
    (reason : String) : Type 0 where
  pub before : Handles task id event
  pub released : Result (Unit {0}) BusError → Task E H (Unit {0})
  pub releases : before.settled (err (transient reason)) ≡ call (release id) released

module _ {E H : Type 0} (sdk : Sdk E H) (opts : ProcessingOptions) (msg : Message H) (info : Info)
    (event : E) (known : msg.info ≡ ok info) (decoded : sdk.from_slice msg.payload ≡ ok event) where
  pub process_message-Handles :
      Handles (process_message sdk opts msg) (message_id sdk opts msg info) event
  unfolding process_message with_info after_claim dispatch message_id handler_ctx
  process_message-Handles =
      let id : MessageId = message_id sdk opts msg info in
      record {
        ctx = handler_ctx sdk opts msg id info;
        claim = after_claim sdk opts msg id info;
        settled = settle sdk opts msg id info;
        own = refl;
        claims = ap (with_info sdk opts msg) known;
        handles = ap (dispatch sdk opts msg id info) decoded;
      }

  pub process_message-Retries :
      (reason : String)
      → is_final_attempt sdk opts msg info.delivered ≡ false
      → Retries (process_message sdk opts msg) (message_id sdk opts msg info) event reason
  unfolding process_message-Handles settle release_and_nak is_final_attempt
  process_message-Retries reason more = record {
    before = process_message-Handles;
    released = λ r. nak_or_warn (compute_backoff opts.backoff info.delivered);
    releases = rw more refl;
  }
