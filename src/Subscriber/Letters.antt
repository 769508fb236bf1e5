-- ===== src/Subscriber/Letters.antt =====
-- The dead letters that `process_message` writes, and the last delivery of a message.
use eventbus_rs.Prelude.{
  ◌≡◌, arith, Bool, true, false, ◌&&◌, ◌||◌, Option, none, some, List, [], ◌∷◌, Result, ok, err,
  String, if◌then◌else◌, length,
}
use eventbus_rs.Prelude.Int.{as_u64}
use eventbus_rs.Core.Duration.{Duration}
use eventbus_rs.Core.Error.{BusError, HandlerError, transient, permanent}
use eventbus_rs.Core.Id.{show_id}
use eventbus_rs.Core.Idempotency.{ClaimOutcome, claimed, already_done}
use eventbus_rs.Effect.Traces.{Oracle, trace}
use eventbus_rs.Calls.{Call, Reply, Bytes, now}
use eventbus_rs.Dlq.Config.{DlqOptions, dlq_subject}
use eventbus_rs.Dlq.Headers.{FailureInfo, dlq_headers, timestamp}
use eventbus_rs.Subscriber.Observe.{
  Run, Verdict, acked, termed, verdicts, claim_reply, handler_replies, confirmed, letters,
}
use eventbus_rs.Subscriber.Outcome.{exhausted, won, decodes}
use eventbus_rs.Subscriber.Options.{ProcessingOptions}
use eventbus_rs.Subscriber.Message.{Message, Info, Sdk, message_id}
use eventbus_rs.Subscriber.Process.{process_message}

-- The time that the run read off the clock first.
abbrev pub clock : {E H : Type 0} → Run E H → Option (Result Duration (Unit {0}))
clock [] = none
clock ((now, r) ∷ t) = some r
clock (_ ∷ t) = clock t

-- Reason, class and detail.
abbrev pub Cause : Type 0
Cause = String × String × String

module _ (opts : ProcessingOptions) (info : Info) where
  -- Why a message fails for good, if it does, by what the store, the decoder and the handler said.
  abbrev pub cause :
      {E : Type 0}
      → Option (Result ClaimOutcome BusError)
      → Result E String
      → List (Result (Unit {0}) HandlerError)
      → Option Cause
  cause (some (ok claimed)) (err e) replies = some ("invalid_payload", "poison", e)
  cause (some (ok claimed)) (ok _) (err (permanent reason) ∷ []) =
      some ("handler_permanent", "permanent", reason)
  cause (some (ok claimed)) (ok _) (err (transient reason) ∷ []) =
      if exhausted opts.max_deliver info.delivered
      then some ("max_retries_exceeded", "transient_exhausted", reason)
      else none
  cause _ _ _ = none

-- The message is not to come again.
abbrev pub is_final : List Verdict → Bool
is_final (acked ∷ []) = true
is_final (termed ∷ []) = true
is_final _ = false

abbrev pub is_done : Option (Result ClaimOutcome BusError) → Bool
is_done (some (ok already_done)) = true
is_done _ = false

abbrev pub is_some {ℓ} : {A : Type ℓ} → Option A → Bool
is_some none = false
is_some (some _) = true

abbrev pub is_empty {ℓ} : {A : Type ℓ} → List A → Bool
is_empty [] = true
is_empty (_ ∷ _) = false

module _ {E H : Type 0} (sdk : Sdk E H) (opts : ProcessingOptions) (msg : Message H)
    (info : Info) where
  abbrev pub failure_of : Cause → FailureInfo
  failure_of (reason, class, detail) = record {
    original_subject = msg.subject;
    original_stream = opts.source;
    original_seq = info.stream_sequence;
    original_msg_id = show_id sdk.uuids (message_id sdk opts msg info);
    consumer = opts.durable;
    delivered = as_u64 info.delivered;
    failure_reason = reason;
    failure_class = class;
    failure_detail = detail;
  }

  abbrev pub letter :
      Option DlqOptions
      → Option Cause
      → Option (Result Duration (Unit {0}))
      → List (String × H × Bytes)
  letter (some dlq) (some c) (some time) =
      (
        dlq_subject opts.source opts.durable,
        dlq_headers sdk.header_api (failure_of c) (timestamp time),
        msg.payload,
      )
      ∷ []
  letter _ _ _ = []

  module _ (o : Oracle (Call E H) Reply) (h : Run E H) (known : msg.info ≡ ok info) where
    abbrev run : Run E H
    run = trace o h (process_message sdk opts msg)

    abbrev why : Option Cause
    why = cause opts info (claim_reply run) (sdk.from_slice msg.payload) (handler_replies run)

    -- A delivery whose metadata can be read calls the handler once if it wins its claim and the payload
    -- decodes, else never. With a DLQ it then sends exactly one dead letter if it wins its claim and the
    -- payload does not decode, the handler fails for good, or it fails on the last delivery; in every
    -- other case, and without a DLQ, it sends none. The letter goes to the consumer's subject and has the
    -- original payload, and its headers say where the message came from, why it failed and when.
    pub letters-process_message :
        (length (handler_replies run)
          ≡ (if won (claim_reply run) && decodes (sdk.from_slice msg.payload) then 1 else 0))
        × (length (letters run) ≡ (if is_some opts.dlq_opts && is_some why then 1 else 0))
        × (letters run ≡ letter opts.dlq_opts why (clock run))
    unfolding trace process_message
    letters-process_message = (ground arith, ground arith, ground arith)

    -- The last delivery, if its metadata can be read, acknowledges or terminates the message exactly if
    -- the store knows it as done, or the delivery wins the claim and the dead letter, where it writes
    -- one, is confirmed.
    pub last_delivery_settles :
        exhausted opts.max_deliver info.delivered ≡ true
        → is_final (verdicts run) ≡ (
            is_done (claim_reply run)
            || (won (claim_reply run) && (is_empty (letters run) || confirmed run)))
    unfolding trace process_message
    last_delivery_settles e = ground arith
