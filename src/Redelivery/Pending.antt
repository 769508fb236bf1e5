-- ===== src/Redelivery/Pending.antt =====
-- All deliveries of a message whose claim a worker has left pending.
use eventbus_rs.Prelude.{ℕ, zero, suc, ◌+◌, ◌≡◌, refl, arith, Bool, none, some, [], Bool-cases, All}
use eventbus_rs.Core.Idempotency.{Marks, pending}
use eventbus_rs.Core.Id.{MessageId}
use eventbus_rs.Subscriber.Options.{ProcessingOptions}
use eventbus_rs.Subscriber.Message.{Message, Info, Sdk, message_id}
use eventbus_rs.Subscriber.Observe.{Run, verdicts, letters}
use eventbus_rs.Redelivery.{
  Environment, exhausted, ends_with, info_at, delivery, attempt, deliveries,
}
use eventbus_rs.Redelivery.Attempt.{wins, terms, attempt_pending}

module _ {E H : Type 0} where
  -- Neither handled nor terminated, and no dead letter sent.
  abbrev pub Untouched : Run E H → Type 0
  Untouched t = (wins t + terms t ≡ 0) × (letters t ≡ [])

module _ {E H : Type 0} (sdk : Sdk E H) (opts : ProcessingOptions) (msg : Message H) (info : Info)
    (o : ℕ → Environment E H) (arrives : ℕ → Bool) where
  abbrev id : MessageId
  id = message_id sdk opts msg info

  refused :
      (k : ℕ) (marks : Marks)
      → marks id.uuid ≡ some pending
      → let s = attempt sdk opts msg info o k marks in
        (s.marks id.uuid ≡ some pending)
        × (wins s.calls + terms s.calls ≡ 0)
        × (letters s.calls ≡ [])
        × (ends_with (verdicts s.calls) ≡ none)
  unfolding message_id
  refused k marks e =
      attempt_pending sdk opts (delivery msg info k) (info_at msg info k) refl (o k) marks e

  -- Where the key of a message is pending, because the worker that had won the claim is gone or could not
  -- close it, and does not expire: however many deliveries JetStream still makes, one after the other,
  -- and whether or not requests to the store fail in them, it drops the message after them; the handler does not succeed in any of them, nothing
  -- goes to the DLQ, and the message is not terminated.
  pub pending_exhausted :
      (n k : ℕ) (marks : Marks)
      → marks id.uuid ≡ some pending
      → let all = deliveries sdk opts msg info o arrives n k marks in
        (all.1 ≡ exhausted) × All Untouched all.0
  unfolding deliveries
  pending_exhausted zero k marks e = (refl, tt)
  pending_exhausted (suc n) k marks e =
      let s = attempt sdk opts msg info o k marks in
      let d = refused k marks e in
      ground (arith, d, Bool-cases (arrives k), pending_exhausted n (suc k) s.marks d.0)
