-- ===== src/Redelivery/Shared.antt =====
-- Two consumers of one stream over one store: the key of a message is the id in its header, whichever
-- consumer it is delivered to.
use eventbus_rs.Prelude.{
  ◌+◌, [], ◌≡◌, ◌≢◌, sym, subst, arith, none, some, ok, inl, inr, true, false, ◌⊎◌, ◌&&◌,
  Bool-cases,
}
use eventbus_rs.Core.Id.{MessageId}
use eventbus_rs.Core.Idempotency.{Mark, Marks, done}
use eventbus_rs.Subscriber.Options.{ProcessingOptions}
use eventbus_rs.Subscriber.Message.{Message, Info, Sdk, header_id, message_id}
use eventbus_rs.Subscriber.Observe.{verdicts}
use eventbus_rs.Subscriber.Process.{process_message}
use eventbus_rs.Redelivery.{Environment, serve, Served, Fate, ends_with}
use eventbus_rs.Redelivery.Attempt.{
  wins, terms, stored, attempt_any, attempt_marked, attempt_done, attempt_fresh,
}

module _ {E H : Type 0} (sdk : Sdk E H) where
  header_key :
      (opts : ProcessingOptions) (msg : Message H) (info : Info) (id : MessageId)
      → header_id sdk msg ≡ some id
      → message_id sdk opts msg info ≡ id
  unfolding message_id
  header_key opts msg info id e = ground arith

  module _ (opts₁ opts₂ : ProcessingOptions) (msg₁ msg₂ : Message H) (info₁ info₂ : Info)
      (o₁ o₂ : Environment E H) (marks : Marks) (id : MessageId) (h₁ : header_id sdk msg₁ ≡ some id)
      (h₂ : header_id sdk msg₂ ≡ some id) (known₁ : msg₁.info ≡ ok info₁)
      (known₂ : msg₂.info ≡ ok info₂) (fresh : marks id.uuid ≡ none) where
    abbrev first : Served E H
    first = serve o₁ [] marks (process_message sdk opts₁ msg₁)

    abbrev second : Served E H
    second = serve o₂ [] first.marks (process_message sdk opts₂ msg₂)

    k₁ : message_id sdk opts₁ msg₁ info₁ ≡ id
    k₁ = header_key opts₁ msg₁ info₁ id h₁

    k₂ : message_id sdk opts₂ msg₂ info₂ ≡ id
    k₂ = header_key opts₂ msg₂ info₂ id h₂

    abbrev Unmarked : MessageId → Type 0
    Unmarked i = marks i.uuid ≡ none

    abbrev Leaves : Mark → MessageId → Type 0
    Leaves m i = first.marks i.uuid ≡ some m

    ended-marked : ends_with (verdicts first.calls) ≢ none → (m : Mark) × Leaves m id
    ended-marked ended =
        elim (attempt_any sdk opts₁ msg₁ info₁ known₁ o₁ marks (subst Unmarked (sym k₁) fresh)) [
          | inl c ↦ (c.kept.0, subst (Leaves c.kept.0) k₁ c.kept.1)
          | inr s ↦ absurd (ended s.unended)
        ]

    ended-done :
        ends_with (verdicts first.calls) ≢ none → stored first.calls ≡ true → Leaves done id
    ended-done ended w =
        elim (attempt_fresh sdk opts₁ msg₁ info₁ known₁ o₁ marks (subst Unmarked (sym k₁) fresh)
          w) [ inl s ↦ subst (Leaves done) k₁ s.marked | inr s ↦ absurd (ended s.unended) ]

    acknowledges :
        ends_with (verdicts first.calls) ≢ none
        → stored first.calls ≡ true
        → stored second.calls ≡ true
        → ends_with (verdicts second.calls) ≡ some Fate.acknowledged
    acknowledges ended w v =
        attempt_done sdk opts₂ msg₂ info₂ known₂ o₂ first.marks
          (subst (Leaves done) (sym k₂) (ended-done ended w)) v

    -- A message with an id in its header, with no mark yet, is delivered to one consumer, which ends it,
    -- and then to another with the same store, which does what the trait promises and drops no key
    -- meanwhile: whatever else the environment does, with requests to the store that fail, the second
    -- consumer's handler does not succeed and it does not terminate the message; and it acknowledges the
    -- message, unless a request to the store has failed in one of the two deliveries.
    pub other_consumer_skips :
        ends_with (verdicts first.calls) ≢ none
        → (wins second.calls + terms second.calls ≡ 0)
          × ((ends_with (verdicts second.calls) ≡ some Fate.acknowledged)
              ⊎ ((stored first.calls && stored second.calls) ≡ false))
    other_consumer_skips ended =
        let (m, marked) = ended-marked ended in
        let d =
          attempt_marked sdk opts₂ msg₂ info₂ known₂ o₂ first.marks m
            (subst (Leaves m) (sym k₂) marked) in
        (
          d.1,
          ground (
            arith,
            acknowledges ended,
            Bool-cases (stored first.calls),
            Bool-cases (stored second.calls),
          ),
        )
