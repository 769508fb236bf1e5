-- ===== src/Redelivery/Attempt.antt =====
-- One delivery over a store that does what the trait promises: what it leaves, by what it has found.
use eventbus_rs.Prelude.{
  ℕ, ◌+◌, ◌≤◌, not, ◌≡◌, ◌≢◌, ◌⊎◌, arith, Bool, true, false, ◌&&◌, none, some, [], ◌∷◌, ok, err,
  Result, count, ==_iff,
}
use eventbus_rs.Core.Idempotency.{Mark, Marks, pending, done}
use eventbus_rs.Core.Error.{HandlerError}
use eventbus_rs.Core.Id.{MessageId}
use eventbus_rs.Calls.{Call, Reply, publish_with_headers, publish_ack, within}
use eventbus_rs.Subscriber.Options.{ProcessingOptions}
use eventbus_rs.Subscriber.Message.{Message, Info, Sdk, message_id}
use eventbus_rs.Subscriber.Observe.{Run, verdicts, handler_replies, letters}
use eventbus_rs.Subscriber.Outcome.{is_termed, exhausted}
use eventbus_rs.Subscriber.Process.{process_message}
use eventbus_rs.Redelivery.{Environment, fails, serve, Served, Fate, ends_with}

abbrev pub is_ok : Result (Unit {0}) HandlerError → Bool
is_ok (ok _) = true
is_ok (err _) = false

module _ {E H : Type 0} where
  -- How often a run has had the handler succeed, and has terminated the message.
  abbrev pub wins : Run E H → ℕ
  wins t = count is_ok (handler_replies t)

  abbrev pub terms : Run E H → ℕ
  terms t = count is_termed (verdicts t)

  -- No request to the store has failed.
  abbrev pub stored : Run E H → Bool
  stored [] = true
  stored ((c, r) ∷ t) = not (fails c r) && stored t

  -- A request of a publish that has not failed.
  abbrev pub works : (c : Call E H) → Reply c → Bool
  works (within d (publish_with_headers s h b)) (ok (ok _)) = true
  works (within d (publish_with_headers s h b)) _ = false
  works (within d publish_ack) (ok (ok _)) = true
  works (within d publish_ack) _ = false
  works (publish_with_headers s h b) (ok _) = true
  works (publish_with_headers s h b) (err _) = false
  works publish_ack (ok _) = true
  works publish_ack (err _) = false
  works c r = true

  abbrev pub all_work : Run E H → Bool
  all_work [] = true
  all_work ((c, r) ∷ t) = works c r && all_work t

-- The message `id` is done with, by this run: the handler has succeeded, or it is terminated.
pub record Settled {E H : Type 0} (id : MessageId) (s : Served E H) : Type 0 where
  pub marked : s.marks id.uuid ≡ some done
  pub once : wins s.calls + terms s.calls ≡ 1
  pub ended : ends_with (verdicts s.calls) ≢ none

-- The message has a mark, and has been done with at most once.
pub record Closed {E H : Type 0} (id : MessageId) (s : Served E H) : Type 0 where
  pub kept : (m : Mark) × (s.marks id.uuid ≡ some m)
  pub most : wins s.calls + terms s.calls ≤ 1

-- It is to come again.
pub record Open {E H : Type 0} (id : MessageId) (s : Served E H) : Type 0 where
  pub unmarked : s.marks id.uuid ≡ none
  pub nothing : wins s.calls + terms s.calls ≡ 0
  pub unended : ends_with (verdicts s.calls) ≡ none

module _ {E H : Type 0} (sdk : Sdk E H) (opts : ProcessingOptions) (msg : Message H) (info : Info)
    (known : msg.info ≡ ok info) (o : Environment E H) (marks : Marks) where
  abbrev pub id : MessageId
  id = message_id sdk opts msg info

  abbrev pub served : Served E H
  served = serve o [] marks (process_message sdk opts msg)

  -- Under a mark nothing is done for the message, and the mark stays.
  pub attempt_marked :
      (m : Mark)
      → marks id.uuid ≡ some m
      → (served.marks id.uuid ≡ some m) × (wins served.calls + terms served.calls ≡ 0)
  unfolding serve process_message
  attempt_marked pending e = ground (arith, ==_iff id.uuid id.uuid)
  attempt_marked done e = ground (arith, ==_iff id.uuid id.uuid)

  pub attempt_done :
      marks id.uuid ≡ some done
      → stored served.calls ≡ true
      → ends_with (verdicts served.calls) ≡ some Fate.acknowledged
  unfolding serve process_message
  attempt_done e w = ground (arith, ==_iff id.uuid id.uuid)

  -- Whether or not the store fails.
  pub attempt_any : marks id.uuid ≡ none → Closed id served ⊎ Open id served
  unfolding serve process_message
  attempt_any e = ground (arith, ==_iff id.uuid id.uuid)

  pub attempt_fresh :
      marks id.uuid ≡ none → stored served.calls ≡ true → Settled id served ⊎ Open id served
  unfolding serve process_message
  attempt_fresh e s = ground (arith, ==_iff id.uuid id.uuid)

  pub attempt_final :
      marks id.uuid ≡ none
      → stored served.calls ≡ true
      → exhausted opts.max_deliver info.delivered ≡ true
      → all_work served.calls ≡ true
      → Settled id served
  unfolding serve process_message
  attempt_final e s f w = ground (arith, ==_iff id.uuid id.uuid)

  -- Nothing is done for the message but to ask for it again.
  pub attempt_pending :
      marks id.uuid ≡ some pending
      → (served.marks id.uuid ≡ some pending)
        × (wins served.calls + terms served.calls ≡ 0)
        × (letters served.calls ≡ [])
        × (ends_with (verdicts served.calls) ≡ none)
  unfolding serve process_message
  attempt_pending e = ground (arith, ==_iff id.uuid id.uuid)
