-- ===== src/Redelivery/Most.antt =====
-- All deliveries of a message together, whether or not the store fails: it is done with at most once.
use eventbus_rs.Prelude.{
  total, ℕ, zero, suc, ◌+◌, ◌≤◌, ◌≡◌, ◌⊎◌, inl, inr, refl, arith, Bool, none, some, List,
  Option-cases,
}
use eventbus_rs.Core.Idempotency.{Mark, Marks}
use eventbus_rs.Core.Id.{MessageId}
use eventbus_rs.Subscriber.Options.{ProcessingOptions}
use eventbus_rs.Subscriber.Message.{Message, Info, Sdk, message_id}
use eventbus_rs.Subscriber.Observe.{Run}
use eventbus_rs.Redelivery.{Environment, delivery, info_at, attempt, deliveries}
use eventbus_rs.Redelivery.Attempt.{wins, terms, attempt_marked, attempt_any, Closed, Open}

module _ {E H : Type 0} where
  abbrev pub counted : List (Run E H) → ℕ
  counted ts = total wins ts + total terms ts

module _ {E H : Type 0} (sdk : Sdk E H) (opts : ProcessingOptions) (msg : Message H) (info : Info)
    (o : ℕ → Environment E H) (arrives : ℕ → Bool) where
  abbrev id : MessageId
  id = message_id sdk opts msg info

  marked_attempt :
      (k : ℕ) (marks : Marks) (m : Mark)
      → marks id.uuid ≡ some m
      → let s = attempt sdk opts msg info o k marks in
        (s.marks id.uuid ≡ some m) × (wins s.calls + terms s.calls ≡ 0)
  unfolding message_id
  marked_attempt k marks m e =
      attempt_marked sdk opts (delivery msg info k) (info_at msg info k) refl (o k) marks m e

  any_attempt :
      (k : ℕ) (marks : Marks)
      → marks id.uuid ≡ none
      → Closed id (attempt sdk opts msg info o k marks)
        ⊎ Open id (attempt sdk opts msg info o k marks)
  unfolding message_id
  any_attempt k marks e =
      attempt_any sdk opts (delivery msg info k) (info_at msg info k) refl (o k) marks e

  pub marked_counted :
      (n k : ℕ) (marks : Marks) (m : Mark)
      → marks id.uuid ≡ some m
      → counted (deliveries sdk opts msg info o arrives n k marks).0 ≡ 0
  unfolding deliveries
  marked_counted zero k marks m e = refl
  marked_counted (suc n) k marks m e =
      let s = attempt sdk opts msg info o k marks in
      let d = marked_attempt k marks m e in
      ground (arith, d, marked_counted n (suc k) s.marks m d.0)

  fresh_counted :
      (n k : ℕ) (marks : Marks)
      → marks id.uuid ≡ none
      → counted (deliveries sdk opts msg info o arrives n k marks).0 ≤ 1
  unfolding deliveries
  fresh_counted zero k marks e = omega arith
  fresh_counted (suc n) k marks e =
      let s = attempt sdk opts msg info o k marks in
      elim (any_attempt k marks e) [
        | inl d ↦ ground (arith, d.most, marked_counted n (suc k) s.marks d.kept.0 d.kept.1)
        | inr d ↦ ground (arith, d.nothing, fresh_counted n (suc k) s.marks d.unmarked)
      ]

  -- However often a message is delivered, one delivery after the other, whatever the handler, the clock,
  -- JetStream and a store without expiry do, requests to the store that fail included, and whichever
  -- answers get lost: over all deliveries the handler succeeds or the message is terminated at most once.
  pub handled_or_terminated_at_most_once :
      (n k : ℕ) (marks : Marks) → counted (deliveries sdk opts msg info o arrives n k marks).0 ≤ 1
  handled_or_terminated_at_most_once n k marks = elim (Option-cases (marks id.uuid)) [
    | inl e ↦ fresh_counted n k marks e
    | inr (m, e) ↦ ground (arith, marked_counted n k marks m e)
  ]
