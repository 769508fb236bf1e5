-- ===== src/Subscriber/Observe.antt =====
-- What is read off a run of `process_message`: its answers to JetStream, the use of the claim, the
-- replies of the store and the handler, and whether JetStream confirmed the dead letter.
use eventbus_rs.Prelude.{
  String, Bool, true, false, ◌&&◌, ◌||◌, Option, none, some, List, [], ◌∷◌, Result, ok,
}
use eventbus_rs.Core.Duration.{Duration}
use eventbus_rs.Core.Error.{HandlerError, BusError}
use eventbus_rs.Core.Id.{MessageId}
use eventbus_rs.Core.Idempotency.{ClaimOutcome}
use eventbus_rs.Effect.Traces.{Event}
use eventbus_rs.Calls.{
  Call, Reply, nak, term, try_claim, mark_done, release, handle, double_ack, ack_with,
  publish_with_headers, publish_ack, within, Bytes,
}

abbrev pub Run : Type 0 → Type 0 → Type 0
Run E H = List (Event (Call E H) Reply)

-- How a delivery is answered.
pub data Verdict : Type 0 where
  acked : Verdict
  nacked : Option Duration → Verdict
  termed : Verdict

-- How a claim is given up.
pub data Closing : Type 0 where
  marked released : MessageId → Closing

module _ {E H : Type 0} where
  abbrev pub verdict_of : Call E H → Option Verdict
  verdict_of double_ack = some acked
  verdict_of (ack_with (nak delay)) = some (nacked delay)
  verdict_of (ack_with term) = some termed
  verdict_of _ = none

  -- All answers of a run, in order.
  abbrev pub verdicts : Run E H → List Verdict
  verdicts [] = []
  verdicts ((c, r) ∷ t) = elim (verdict_of c) [ none ↦ verdicts t | some v ↦ v ∷ verdicts t ]

  abbrev pub closing_of : Call E H → Option Closing
  closing_of (mark_done k) = some (marked k)
  closing_of (release k) = some (released k)
  closing_of _ = none

  abbrev pub closings : Run E H → List Closing
  closings [] = []
  closings ((c, r) ∷ t) = elim (closing_of c) [ none ↦ closings t | some v ↦ v ∷ closings t ]

  -- The reply to the first claim of the run.
  abbrev pub claim_reply : Run E H → Option (Result ClaimOutcome BusError)
  claim_reply [] = none
  claim_reply ((try_claim k, r) ∷ t) = some r
  claim_reply ((c, r) ∷ t) = claim_reply t

  -- The handler's answers, in order.
  abbrev pub handler_replies : Run E H → List (Result (Unit {0}) HandlerError)
  handler_replies [] = []
  handler_replies ((handle ctx e, r) ∷ t) = r ∷ handler_replies t
  handler_replies ((c, r) ∷ t) = handler_replies t

  -- JetStream has confirmed a publish.
  abbrev pub confirms : (c : Call E H) → Reply c → Bool
  confirms publish_ack (ok _) = true
  confirms (within d publish_ack) (ok (ok _)) = true
  confirms _ _ = false

  abbrev pub confirmed : Run E H → Bool
  confirmed [] = false
  confirmed ((c, r) ∷ t) = confirms c r || confirmed t

  -- No answer of this kind before JetStream has confirmed a publish.
  abbrev pub only_confirmed : (Verdict → Bool) → Run E H → Bool
  only_confirmed p [] = true
  only_confirmed p ((c, r) ∷ t) =
      confirms c r || (elim (verdict_of c) [ none ↦ true | some v ↦ p v ] && only_confirmed p t)

  -- The first answer of the run is its last call.
  abbrev pub answers_last : Run E H → Bool
  answers_last [] = false
  answers_last ((c, r) ∷ t) = elim (verdict_of c) [
    | none ↦ answers_last t
    | some v ↦ elim t [ [] ↦ true | _ ∷ _ ↦ false ]
  ]

  -- What the run sends to the DLQ, under a timeout or not.
  abbrev pub letter_of : Call E H → Option (String × H × Bytes)
  letter_of (publish_with_headers subject headers payload) = some (subject, headers, payload)
  letter_of (within d (publish_with_headers subject headers payload)) =
      some (subject, headers, payload)
  letter_of _ = none

  abbrev pub letters : Run E H → List (String × H × Bytes)
  letters [] = []
  letters ((c, r) ∷ t) = elim (letter_of c) [ none ↦ letters t | some v ↦ v ∷ letters t ]
