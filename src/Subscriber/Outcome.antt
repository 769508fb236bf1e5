-- ===== src/Subscriber/Outcome.antt =====
-- How `process_message` answers a delivery, on every run.
use eventbus_rs.Prelude.{
  ◌≡◌, arith, Bool, true, false, not, Option, none, some, List, [], ◌∷◌, Result, ok, err, String,
  leb, if◌then◌else◌, suc, length, ◌&&◌,
}
use eventbus_rs.Prelude.Int.{ℤ, pos}
use eventbus_rs.Core.Duration.{from_secs}
use eventbus_rs.Core.Error.{BusError, HandlerError, transient, permanent}
use eventbus_rs.Core.Id.{MessageId}
use eventbus_rs.Core.Idempotency.{ClaimOutcome, claimed, already_pending, already_done}
use eventbus_rs.Effect.Traces.{Oracle, trace}
use eventbus_rs.Calls.{Call, Reply}
use eventbus_rs.Dlq.Config.{DlqOptions}
use eventbus_rs.Subscriber.Observe.{
  Run, Closing, Verdict, acked, nacked, termed, marked, released, verdicts, closings, claim_reply,
  handler_replies, confirmed, only_confirmed, answers_last,
}
use eventbus_rs.Subscriber.Options.{ProcessingOptions}
use eventbus_rs.Subscriber.Message.{Message, Info, Sdk, message_id}
use eventbus_rs.Subscriber.Backoff.{compute_backoff}
use eventbus_rs.Subscriber.Process.{process_message}

-- Deliveries are limited, and this is the last one.
abbrev pub exhausted : ℤ → ℤ → Bool
exhausted (pos (suc n)) (pos attempt) = leb (suc n) attempt
exhausted _ _ = false

-- A dead letter: terminated once it is safe in the DLQ, or where there is none.
abbrev pub buried : Option DlqOptions → Bool → Verdict
buried none _ = termed
buried (some dlq) true = termed
buried (some dlq) false = nacked (some dlq.config.failure_nak_delay)

abbrev pub won : Option (Result ClaimOutcome BusError) → Bool
won (some (ok claimed)) = true
won _ = false

abbrev pub decodes : {E : Type 0} → Result E String → Bool
decodes (ok _) = true
decodes (err _) = false

abbrev pub is_termed : Verdict → Bool
is_termed termed = true
is_termed _ = false

-- The closing of a claim that goes with an answer.
abbrev pub closing_for : MessageId → List Verdict → List Closing
closing_for id (nacked _ ∷ []) = released id ∷ []
closing_for id (acked ∷ []) = marked id ∷ []
closing_for id (termed ∷ []) = marked id ∷ []
closing_for id _ = []

module _ (opts : ProcessingOptions) (info : Info) (safe : Bool) where
  abbrev pub handled : List (Result (Unit {0}) HandlerError) → List Verdict
  handled (ok _ ∷ []) = acked ∷ []
  handled (err (permanent _) ∷ []) = buried opts.dlq_opts safe ∷ []
  handled (err (transient _) ∷ []) =
      (if exhausted opts.max_deliver info.delivered
        then buried opts.dlq_opts safe
        else nacked (some (compute_backoff opts.backoff info.delivered)))
      ∷ []
  handled _ = []

  -- The decision table: the answers that a delivery gets, by what the store, the decoder, the
  -- handler and the DLQ said.
  abbrev pub decision :
      {E : Type 0}
      → Option (Result ClaimOutcome BusError)
      → Result E String
      → List (Result (Unit {0}) HandlerError)
      → List Verdict
  decision (some (ok already_done)) decoded replies = acked ∷ []
  decision (some (ok already_pending)) decoded replies = nacked (some (from_secs 1)) ∷ []
  decision (some (err _)) decoded replies = nacked (some (from_secs 1)) ∷ []
  decision (some (ok claimed)) (err _) replies = buried opts.dlq_opts safe ∷ []
  decision (some (ok claimed)) (ok _) replies = handled replies
  decision none decoded replies = []

module _ {E H : Type 0} (sdk : Sdk E H) (opts : ProcessingOptions) (msg : Message H)
    (info : Info) where
  module _ (o : Oracle (Call E H) Reply) (h : Run E H) (known : msg.info ≡ ok info) where
    abbrev run : Run E H
    run = trace o h (process_message sdk opts msg)

    -- Whatever the store, the handler, the DLQ and the acknowledgements do, a delivery whose metadata
    -- can be read is answered as the decision table says, from the replies of the same run.
    pub verdicts-process_message :
        verdicts run
        ≡ decision opts info
            (confirmed run)
            (claim_reply run)
            (sdk.from_slice msg.payload)
            (handler_replies run)
    unfolding trace process_message
    verdicts-process_message = ground arith

    -- A delivery whose metadata can be read is answered exactly once, and the answer is the last call that the delivery makes: the claim
    -- is closed and the dead letter stored before JetStream hears of it.
    pub answers_once : (length (verdicts run) ≡ 1) × (answers_last run ≡ true)
    unfolding trace process_message
    answers_once = (ground arith, ground arith)

    -- A delivery whose metadata can be read closes a claim that it has won by exactly one call: released
    -- if the message is to come again, marked done if it is not. Without a claim it leaves the store alone.
    pub closings-process_message :
        (length (closings run) ≡ (if won (claim_reply run) then 1 else 0))
        × (closings run ≡ (
            if won (claim_reply run)
            then closing_for (message_id sdk opts msg info) (verdicts run)
            else []))
    unfolding trace process_message
    closings-process_message = (ground arith, ground arith)

    -- The handler runs once if the delivery has won the claim and the payload decodes, else never.
    pub handled_once :
        length (handler_replies run)
        ≡ (if won (claim_reply run) && decodes (sdk.from_slice msg.payload) then 1 else 0)
    unfolding trace process_message
    handled_once = ground arith

    -- With a DLQ, no run of the delivery terminates the message, before JetStream has confirmed that
    -- the dead letter is stored.
    pub termed_only_confirmed :
        (dlq : DlqOptions)
        → opts.dlq_opts ≡ some dlq
        → only_confirmed (λ v. not (is_termed v)) run ≡ true
    unfolding trace process_message
    termed_only_confirmed dlq e = ground arith
