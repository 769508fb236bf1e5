-- ===== src/Redelivery/Steady.antt =====
-- A handler that fails for a while only, and succeeds on the last delivery at the latest.
use eventbus_rs.Prelude.{
  total, ℕ, zero, suc, ◌+◌, ◌<◌, ◌≡◌, refl, sym, subst, ◌⊎◌, inl, inr, arith, Bool, true, false,
  none, some, [], ◌∷◌, Result, ok, err, ==_iff,
}
use eventbus_rs.Prelude.Int.{pos}
use eventbus_rs.Core.Error.{HandlerError, permanent}
use eventbus_rs.Core.Handler.{HandlerCtx}
use eventbus_rs.Core.Id.{MessageId}
use eventbus_rs.Core.Idempotency.{Marks, done, claimed}
use eventbus_rs.Calls.{Call, try_claim, handle}
use eventbus_rs.Subscriber.Options.{ProcessingOptions}
use eventbus_rs.Subscriber.Message.{Message, Info, Sdk, message_id}
use eventbus_rs.Subscriber.Observe.{Run}
use eventbus_rs.Subscriber.Process.{process_message, handler_ctx}
use eventbus_rs.Subscriber.Outcome.{exhausted}
use eventbus_rs.Redelivery.{
  Environment, fails, serve, Served, delivery, info_at, attempt, deliveries,
}
use eventbus_rs.Redelivery.Attempt.{wins, terms, stored, is_ok, Open}
use eventbus_rs.Redelivery.Once.{open_deliveries}
use eventbus_rs.Redelivery.Most.{marked_counted}
use eventbus_rs.Redelivery.Store.{serve-stored}

abbrev pub not_permanent : Result (Unit {0}) HandlerError → Bool
not_permanent (err (permanent _)) = false
not_permanent _ = true

-- The handler has succeeded in this run, and the message is done.
record Handled {E H : Type 0} (id : MessageId) (s : Served E H) : Type 0 where
  marked : s.marks id.uuid ≡ some done
  won : wins s.calls ≡ 1
  kept : terms s.calls ≡ 0

module _ {E H : Type 0} (sdk : Sdk E H) (opts : ProcessingOptions) (msg : Message H) (info : Info)
    (known : msg.info ≡ ok info) (event : E) (decoded : sdk.from_slice msg.payload ≡ ok event)
    (o : Environment E H) (marks : Marks) where
  abbrev id : MessageId
  id = message_id sdk opts msg info

  abbrev served : Served E H
  served = serve o [] marks (process_message sdk opts msg)

  -- What the handler answers, with the claim won.
  abbrev handler_reply : Result (Unit {0}) HandlerError
  handler_reply =
      o.replies ((try_claim id, ok claimed) ∷ []) (handle (handler_ctx sdk opts msg id info) event)

  attempt_handles :
      marks id.uuid ≡ none
      → stored served.calls ≡ true
      → is_ok handler_reply ≡ true
      → Handled id served
  unfolding serve process_message
  attempt_handles fresh s r = ground (arith, ==_iff id.uuid id.uuid)

  attempt_goes_on :
      marks id.uuid ≡ none
      → stored served.calls ≡ true
      → not_permanent handler_reply ≡ true
      → exhausted opts.max_deliver info.delivered ≡ false
      → Handled id served ⊎ Open id served
  unfolding serve process_message
  attempt_goes_on fresh s r more = ground (arith, ==_iff id.uuid id.uuid)

module _ {E H : Type 0} (sdk : Sdk E H) (opts : ProcessingOptions) (msg : Message H) (info : Info)
    (event : E) (decoded : sdk.from_slice msg.payload ≡ ok event) (o : ℕ → Environment E H)
    (reliable : (k : ℕ) (h : Run E H) (c : Call E H) → fails c ((o k).replies h c) ≡ false)
    (arrives : ℕ → Bool) where
  abbrev key : MessageId
  key = message_id sdk opts msg info

  abbrev HandledIn : ℕ → Marks → Type 0
  HandledIn k marks = Handled key (attempt sdk opts msg info o k marks)

  kept : (k : ℕ) (marks : Marks) → stored (attempt sdk opts msg info o k marks).calls ≡ true
  kept k marks =
      serve-stored (o k) (reliable k) [] marks (process_message sdk opts (delivery msg info k))

  handled_once_more :
      (n k : ℕ) (marks : Marks)
      → HandledIn k marks
      → let all = (deliveries sdk opts msg info o arrives (suc n) k marks).0 in
        (total wins all ≡ 1) × (total terms all ≡ 0)
  unfolding deliveries
  handled_once_more n k marks d =
      let s = attempt sdk opts msg info o k marks in
      ground (
        arith,
        d.won,
        d.kept,
        marked_counted sdk opts msg info o arrives n (suc k) s.marks done d.marked,
      )

  module _ (m : ℕ) (limit : opts.max_deliver ≡ pos (suc m))
      (steady : (k : ℕ) (h : Run E H) (ctx : HandlerCtx)
        → not_permanent ((o k).replies h (handle ctx event)) ≡ true)
      (last : (h : Run E H) (ctx : HandlerCtx)
        → is_ok ((o (suc m)).replies h (handle ctx event)) ≡ true) where
    abbrev Succeeds : ℕ → Type 0
    Succeeds k =
        (h : Run E H) (ctx : HandlerCtx) → is_ok ((o k).replies h (handle ctx event)) ≡ true

    last_handles : (k : ℕ) (marks : Marks) → k ≡ suc m → marks key.uuid ≡ none → HandledIn k marks
    unfolding message_id
    last_handles k marks e fresh =
        attempt_handles sdk opts (delivery msg info k) (info_at msg info k) refl event decoded (o k)
          marks fresh (kept k marks) (subst Succeeds (sym e) last _ _)

    goes_on :
        (k : ℕ) (marks : Marks)
        → k < suc m
        → marks key.uuid ≡ none
        → HandledIn k marks ⊎ Open key (attempt sdk opts msg info o k marks)
    unfolding message_id
    goes_on k marks l fresh =
        attempt_goes_on sdk opts (delivery msg info k) (info_at msg info k) refl event decoded (o k)
          marks fresh (kept k marks) (steady k _ _) (ground arith)

    handled_from :
        (n k : ℕ) (marks : Marks)
        → k + n ≡ suc m
        → marks key.uuid ≡ none
        → let all = (deliveries sdk opts msg info o arrives (suc n) k marks).0 in
          (total wins all ≡ 1) × (total terms all ≡ 0)
    handled_from zero k marks bound e =
        handled_once_more 0 k marks (last_handles k marks (omega (arith, bound)) e)
    handled_from (suc n) k marks bound e = elim (goes_on k marks (omega (arith, bound)) e) [
      | inl d ↦ handled_once_more (suc n) k marks d
      | inr d ↦
          let s = attempt sdk opts msg info o k marks in
          let rest = handled_from n (suc k) s.marks (omega arith) d.unmarked in
          ground (
            arith,
            open_deliveries sdk opts msg info o reliable arrives (suc n) k marks d,
            d.nothing,
            rest,
          )
    ]

    -- A message with no mark yet whose payload decodes, delivered up to `max_deliver` times, one
    -- delivery after the other, over a store whose keys do not expire meanwhile: if no request to the
    -- store fails, and the handler never fails for good and succeeds on the last delivery, then over all
    -- deliveries it succeeds once and the message is never terminated, whatever JetStream and the clock do
    -- and whichever answers get lost.
    pub steady_handled_once :
        (marks : Marks)
        → marks key.uuid ≡ none
        → let all = (deliveries sdk opts msg info o arrives (suc m) 1 marks).0 in
          (total wins all ≡ 1) × (total terms all ≡ 0)
    steady_handled_once marks e = handled_from m 1 marks (omega arith) e
