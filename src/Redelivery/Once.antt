-- ===== src/Redelivery/Once.antt =====
-- All deliveries of a message together: it is handled or terminated, once.
use eventbus_rs.Prelude.{
  total, ℕ, zero, suc, ◌+◌, ◌≡◌, ◌≢◌, ◌⊎◌, inl, inr, refl, sym, subst, ap, ◌∙◌, arith, Bool, true,
  false, none, some, List, [], ◌∷◌, Bool-cases,
}
use eventbus_rs.Prelude.Int.{pos}
use eventbus_rs.Core.Idempotency.{Marks, done}
use eventbus_rs.Core.Id.{MessageId}
use eventbus_rs.Calls.{Call}
use eventbus_rs.Subscriber.Options.{ProcessingOptions}
use eventbus_rs.Subscriber.Message.{Message, Info, Sdk, message_id}
use eventbus_rs.Subscriber.Observe.{Run, verdicts}
use eventbus_rs.Subscriber.Process.{process_message}
use eventbus_rs.Redelivery.{
  Environment, fails, Fate, exhausted, ends_with, delivery, info_at, attempt, deliveries,
}
use eventbus_rs.Redelivery.Store.{serve-works, serve-stored}
use eventbus_rs.Redelivery.Most.{counted, marked_counted}
use eventbus_rs.Redelivery.Attempt.{
  wins, terms, works, stored, attempt_marked, attempt_done, attempt_fresh, attempt_final, Settled,
  Open,
}

module _ {E H : Type 0} (sdk : Sdk E H) (opts : ProcessingOptions) (msg : Message H) (info : Info)
    (o : ℕ → Environment E H)
    (reliable : (k : ℕ) (h : Run E H) (c : Call E H) → fails c ((o k).replies h c) ≡ false) where
  abbrev id : MessageId
  id = message_id sdk opts msg info

  kept : (k : ℕ) (marks : Marks) → stored (attempt sdk opts msg info o k marks).calls ≡ true
  kept k marks =
      serve-stored (o k) (reliable k) [] marks (process_message sdk opts (delivery msg info k))

  -- The rules for one delivery, under the id that all deliveries share.
  again :
      (k : ℕ) (marks : Marks)
      → marks id.uuid ≡ some done
      → let s = attempt sdk opts msg info o k marks in
        (s.marks id.uuid ≡ some done)
        × (wins s.calls + terms s.calls ≡ 0)
        × (ends_with (verdicts s.calls) ≡ some Fate.acknowledged)
  unfolding message_id
  again k marks e =
      let m =
        attempt_marked sdk opts (delivery msg info k) (info_at msg info k) refl (o k) marks done
          e in
      (
        m.0,
        m.1,
        attempt_done sdk opts (delivery msg info k) (info_at msg info k) refl (o k) marks e
            (kept k marks),
      )

  first :
      (k : ℕ) (marks : Marks)
      → marks id.uuid ≡ none
      → Settled id (attempt sdk opts msg info o k marks)
        ⊎ Open id (attempt sdk opts msg info o k marks)
  unfolding message_id
  first k marks e =
      attempt_fresh sdk opts (delivery msg info k) (info_at msg info k) refl (o k) marks e
        (kept k marks)

  last :
      (n : ℕ) (marks : Marks)
      → opts.max_deliver ≡ pos (suc n)
      → ((h : Run E H) (c : Call E H) → works c ((o (suc n)).replies h c) ≡ true)
      → marks id.uuid ≡ none
      → Settled id (attempt sdk opts msg info o (suc n) marks)
  unfolding message_id
  last n marks m w e =
      attempt_final sdk opts (delivery msg info (suc n)) (info_at msg info (suc n)) refl (o (suc n))
        marks e (kept (suc n) marks) (ground arith)
        (serve-works (o (suc n)) w [] marks (process_message sdk opts (delivery msg info (suc n))))

  module _ (arrives : ℕ → Bool) where
    settled_counted :
        (n k : ℕ) (marks : Marks)
        → Settled id (attempt sdk opts msg info o k marks)
        → counted (deliveries sdk opts msg info o arrives (suc n) k marks).0 ≡ 1
    unfolding deliveries
    settled_counted n k marks d =
        let s = attempt sdk opts msg info o k marks in
        ground (
          arith,
          d.once,
          marked_counted sdk opts msg info o arrives n (suc k) s.marks done d.marked,
        )

    pub open_deliveries :
        (n k : ℕ) (marks : Marks)
        → Open id (attempt sdk opts msg info o k marks)
        → let s = attempt sdk opts msg info o k marks in
          let rest = deliveries sdk opts msg info o arrives n (suc k) s.marks in
          deliveries sdk opts msg info o arrives (suc n) k marks ≡ (s.calls ∷ rest.0, rest.1)
    unfolding deliveries
    open_deliveries n k marks d =
        let s = attempt sdk opts msg info o k marks in
        let rest = deliveries sdk opts msg info o arrives n (suc k) s.marks in
        ground (arith, d.unended, Bool-cases (arrives k))

    settled_fate :
        (n k : ℕ) (marks : Marks)
        → marks id.uuid ≡ some done
        → arrives (k + n) ≡ true
        → (deliveries sdk opts msg info o arrives (suc n) k marks).1 ≢ exhausted
    unfolding deliveries
    settled_fate zero k marks e a = ground (arith, again k marks e)
    settled_fate (suc n) k marks e a =
        let d = again k marks e in
        ground (
          arith,
          d,
          settled_fate n (suc k) (attempt sdk opts msg info o k marks).marks d.0
              (subst (λ (j : ℕ). arrives j ≡ true) (omega arith) a),
        )

    ended_fate :
        (n k : ℕ) (marks : Marks)
        → Settled id (attempt sdk opts msg info o k marks)
        → arrives (k + n) ≡ true
        → (deliveries sdk opts msg info o arrives (suc n) k marks).1 ≢ exhausted
    unfolding deliveries
    ended_fate zero k marks d a = ground (arith, d.ended)
    ended_fate (suc n) k marks d a =
        let s = attempt sdk opts msg info o k marks in
        ground (
          arith,
          d.ended,
          settled_fate n (suc k) s.marks d.marked
              (subst (λ (j : ℕ). arrives j ≡ true) (omega arith) a),
        )

    module _ (m : ℕ) (limit : opts.max_deliver ≡ pos (suc m))
        (published : (h : Run E H) (c : Call E H) → works c ((o (suc m)).replies h c) ≡ true) where
      last_at :
          (k : ℕ) (marks : Marks)
          → k + 0 ≡ suc m
          → marks id.uuid ≡ none
          → Settled id (attempt sdk opts msg info o k marks)
      last_at k marks bound e =
          subst (λ (j : ℕ). Settled id (attempt sdk opts msg info o j marks)) (omega (arith, bound))
            (last m marks limit published e)

      from_fresh :
          (n k : ℕ) (marks : Marks)
          → k + n ≡ suc m
          → marks id.uuid ≡ none
          → counted (deliveries sdk opts msg info o arrives (suc n) k marks).0 ≡ 1
      from_fresh zero k marks bound e = settled_counted 0 k marks (last_at k marks bound e)
      from_fresh (suc n) k marks bound e = elim (first k marks e) [
        | inl d ↦ settled_counted (suc n) k marks d
        | inr d ↦
            let s = attempt sdk opts msg info o k marks in
            omega (
              arith,
              ap (λ (r : List (Run E H) × Fate). counted r.0) (open_deliveries (suc n) k marks d),
              d.nothing,
              from_fresh n (suc k) s.marks (omega arith) d.unmarked,
            )
      ]

      fate_from_fresh :
          (n k : ℕ) (marks : Marks)
          → k + n ≡ suc m
          → marks id.uuid ≡ none
          → arrives (suc m) ≡ true
          → (deliveries sdk opts msg info o arrives (suc n) k marks).1 ≢ exhausted
      fate_from_fresh zero k marks bound e a =
          ended_fate 0 k marks (last_at k marks bound e)
            (subst (λ (j : ℕ). arrives j ≡ true) (sym bound) a)
      fate_from_fresh (suc n) k marks bound e a = elim (first k marks e) [
        | inl d ↦ ended_fate (suc n) k marks d (subst (λ (j : ℕ). arrives j ≡ true) (sym bound) a)
        | inr d ↦
            let s = attempt sdk opts msg info o k marks in
            λ x. fate_from_fresh n (suc k) s.marks (omega arith) d.unmarked a (
              sym (ap (λ (r : List (Run E H) × Fate). r.1) (open_deliveries (suc n) k marks d)) ∙ x)
      ]

      -- A message with no mark yet and a positive `max_deliver`, delivered up to that many times, one
      -- delivery after the other, over a store whose keys do not expire meanwhile: whatever the handler,
      -- the clock and JetStream do, and whichever answers get lost, if no request to the store fails and
      -- the publishes of the last delivery work, then over all deliveries the handler succeeds once or
      -- the message is terminated once, and not both.
      pub handled_or_terminated_once :
          (marks : Marks)
          → marks id.uuid ≡ none
          → let all = (deliveries sdk opts msg info o arrives (suc m) 1 marks).0 in
            total wins all + total terms all ≡ 1
      handled_or_terminated_once marks e = from_fresh m 1 marks (omega arith) e

      -- A message with no mark yet and a positive `max_deliver`, delivered up to that many times, one
      -- delivery after the other, over a store whose keys do not expire meanwhile: if no request to the
      -- store fails, the publishes of the last delivery work and its answer arrives, then JetStream has been told to
      -- acknowledge or to terminate the message, and does not drop it for having used up its
      -- deliveries, whatever the handler does and whichever earlier answers get lost.
      pub never_exhausted :
          (marks : Marks)
          → marks id.uuid ≡ none
          → arrives (suc m) ≡ true
          → (deliveries sdk opts msg info o arrives (suc m) 1 marks).1 ≢ exhausted
      never_exhausted marks e a = fate_from_fresh m 1 marks (omega arith) e a
