-- ===== src/Redelivery/Buried.antt =====
-- The dead letters of all deliveries of a message together.
use eventbus_rs.Prelude.{
  total, ℕ, zero, suc, ◌+◌, ◌≤◌, ◌≡◌, refl, arith, Bool, true, false, none, some, [], if◌then◌else◌,
}
use eventbus_rs.Prelude.Int.{pos}
use eventbus_rs.Core.Idempotency.{Marks}
use eventbus_rs.Calls.{Call}
use eventbus_rs.Dlq.Config.{DlqOptions}
use eventbus_rs.Subscriber.Options.{ProcessingOptions}
use eventbus_rs.Subscriber.Message.{Message, Info, Sdk, message_id}
use eventbus_rs.Subscriber.Observe.{Run, confirmed}
use eventbus_rs.Subscriber.Process.{process_message}
use eventbus_rs.Redelivery.{Environment, fails, serve, delivery, attempt, deliveries}
use eventbus_rs.Redelivery.Attempt.{wins, terms, works}
use eventbus_rs.Redelivery.Once.{handled_or_terminated_once}
use eventbus_rs.Redelivery.Most.{handled_or_terminated_at_most_once}

module _ {E H : Type 0} where
  -- Whether JetStream has confirmed a dead letter of the run.
  abbrev pub buries : Run E H → ℕ
  buries t = if confirmed t then 1 else 0

module _ {E H : Type 0} (sdk : Sdk E H) (opts : ProcessingOptions) (dlq : DlqOptions)
    (with_dlq : opts.dlq_opts ≡ some dlq) where
  terms-eq-buries :
      (msg : Message H) (o : Environment E H) (marks : Marks)
      → let t = (serve o [] marks (process_message sdk opts msg)).calls in terms t ≡ buries t
  unfolding serve process_message
  terms-eq-buries msg o marks = ground arith

  module _ (msg : Message H) (info : Info) (o : ℕ → Environment E H) (arrives : ℕ → Bool) where
    total-buries :
        (n k : ℕ) (marks : Marks)
        → let all = (deliveries sdk opts msg info o arrives n k marks).0 in
          total terms all ≡ total buries all
    unfolding deliveries
    total-buries zero k marks = refl
    total-buries (suc n) k marks =
        let s = attempt sdk opts msg info o k marks in
        ground
          (arith, terms-eq-buries (delivery msg info k) (o k) marks, total-buries n (suc k) s.marks)

    -- With a DLQ, a message delivered any number of times, one delivery after the other, over a store that
    -- does what the trait promises and drops no key meanwhile: whatever the handler, the clock, JetStream
    -- and the store do, with publishes and requests to the store that fail, and whichever answers get lost,
    -- the successes of the handler and the deliveries with a confirmed dead letter are together at most
    -- one.
    pub handled_or_buried_at_most_once :
        (n k : ℕ) (marks : Marks)
        → let all = (deliveries sdk opts msg info o arrives n k marks).0 in
          total wins all + total buries all ≤ 1
    handled_or_buried_at_most_once n k marks = omega (
      arith,
      handled_or_terminated_at_most_once sdk opts msg info o arrives n k marks,
      total-buries n k marks,
    )

    -- With a DLQ, a message with no mark yet and a positive `max_deliver`, delivered up to that many
    -- times, one delivery after the other, over a store whose keys do not expire meanwhile: whatever the
    -- handler, the clock and JetStream do, and whichever answers get lost, if no request to the store
    -- fails and the publishes of the last delivery work, then over all deliveries either the handler
    -- succeeds once and no dead letter is confirmed, or one delivery gets its dead letter confirmed and
    -- the handler never succeeds.
    pub handled_or_buried_once :
        (m : ℕ) (marks : Marks)
        → opts.max_deliver ≡ pos (suc m)
        → ((k : ℕ) (h : Run E H) (c : Call E H) → fails c ((o k).replies h c) ≡ false)
        → ((h : Run E H) (c : Call E H) → works c ((o (suc m)).replies h c) ≡ true)
        → marks (message_id sdk opts msg info).uuid ≡ none
        → let all = (deliveries sdk opts msg info o arrives (suc m) 1 marks).0 in
          total wins all + total buries all ≡ 1
    handled_or_buried_once m marks limit reliable published fresh = omega (
      arith,
      handled_or_terminated_once sdk opts msg info o reliable arrives m limit published marks fresh,
      total-buries (suc m) 1 marks,
    )
