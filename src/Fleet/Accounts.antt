-- ===== src/Fleet/Accounts.antt =====
-- How a message id comes to be marked done, call by call: by a success of its handler, or by a worker
-- that gives the message up.
use eventbus_rs.Prelude.{
  ◌+◌, ◌≤◌, ◌≡◌, refl, arith, Bool, true, false, ◌||◌, some, List, [], ◌∷◌, ◌++◌, Result, ok, err,
  count-append, if◌then◌else◌, ◌==◌, inl, inr, ◌⊎◌,
}
use eventbus_rs.Core.Error.{HandlerError, BusError}
use eventbus_rs.Core.Id.{Uuid, MessageId}
use eventbus_rs.Core.Idempotency.{Marks, ClaimOutcome, already_done, done}
use eventbus_rs.Calls.{Call, Reply, try_claim, mark_done, release, handle}
use eventbus_rs.Subscriber.Discipline.{Phase, allowed}
use eventbus_rs.Subscriber.Observe.{
  Run, Closing, marked, released, closings, handler_replies, claim_reply,
}
use eventbus_rs.Fleet.System.{success, Serves}
use eventbus_rs.Fleet.Budget.{won}

abbrev pub any_ok : List (Result (Unit {0}) HandlerError) → Bool
any_ok [] = false
any_ok (ok _ ∷ rs) = true
any_ok (err _ ∷ rs) = any_ok rs

abbrev pub any_marked : List Closing → Bool
any_marked [] = false
any_marked (marked _ ∷ cs) = true
any_marked (released _ ∷ cs) = any_marked cs

module _ {E H : Type 0} where
  -- The message that a worker gives up with this call: it marks the id done, and the handler has not
  -- succeeded in its run.
  abbrev pub dismissal : MessageId → Run E H → Call E H → List MessageId
  dismissal id t (mark_done k) = if any_ok (handler_replies t) then [] else id ∷ []
  dismissal id t c = []

  pub any_ok-snoc :
      (t : Run E H) (c : Call E H) (r : Reply c)
      → any_ok (handler_replies (t ++ (c, r) ∷ []))
        ≡ (any_ok (handler_replies t) || any_ok (handler_replies ((c, r) ∷ [])))
  any_ok-snoc [] c r = refl
  any_ok-snoc ((handle ctx e, ok x) ∷ t) c r = refl
  any_ok-snoc ((handle ctx e, err x) ∷ t) c r = any_ok-snoc t c r
  any_ok-snoc ((d, q) ∷ t) c r = ground (arith, any_ok-snoc t c r)

  any_marked-snoc :
      (t : Run E H) (c : Call E H) (r : Reply c)
      → any_marked (closings (t ++ (c, r) ∷ []))
        ≡ (any_marked (closings t) || any_marked (closings ((c, r) ∷ [])))
  any_marked-snoc [] c r = ground arith
  any_marked-snoc ((mark_done k, q) ∷ t) c r = refl
  any_marked-snoc ((release k, q) ∷ t) c r = any_marked-snoc t c r
  any_marked-snoc ((d, q) ∷ t) c r = ground (arith, any_marked-snoc t c r)

  claim_reply-snoc :
      (t : Run E H) (c : Call E H) (r : Reply c) (x : Result ClaimOutcome BusError)
      → claim_reply (t ++ (c, r) ∷ []) ≡ some x
      → (claim_reply t ≡ some x) ⊎ (claim_reply ((c, r) ∷ []) ≡ some x)
  claim_reply-snoc [] c r x e = inr e
  claim_reply-snoc ((try_claim k, q) ∷ t) c r x e = inl e
  claim_reply-snoc ((d, q) ∷ t) c r x e = ground (arith, claim_reply-snoc t c r x)

pub won-append : (u : Uuid) (xs ys : List MessageId) → won u (xs ++ ys) ≡ won u xs + won u ys
won-append u = count-append (λ (i : MessageId). i.uuid == u)

module _ {E H : Type 0} (u : Uuid) (id : MessageId) (φ : Phase) where
  -- What a call by itself says, that the worker may make.
  wins_once :
      (c : Call E H) (r : Reply c)
      → allowed id φ c ≡ true
      → (id.uuid == u) ≡ true
      → any_ok (handler_replies ((c, r) ∷ [])) ≡ true
      → 1 ≤ won u (success c r)
  wins_once (handle ctx e) r a same w = ground (arith, a, same, w)
  wins_once c r a same w = ground (arith, w)

  gives_up :
      (t : Run E H) (c : Call E H) (r : Reply c)
      → (id.uuid == u) ≡ true
      → any_marked (closings ((c, r) ∷ [])) ≡ true
      → any_ok (handler_replies t) ≡ false
      → 1 ≤ won u (dismissal id t c)
  gives_up t (mark_done k) r same m fails = ground (arith, same, fails)
  gives_up t c r same m fails = ground (arith, m)

  finds_done :
      (c : Call E H) (r : Reply c) (marks marks' : Marks)
      → allowed id φ c ≡ true
      → (id.uuid == u) ≡ true
      → Serves marks c r marks'
      → claim_reply ((c, r) ∷ []) ≡ some (ok already_done)
      → marks u ≡ some done
  finds_done (try_claim k) r marks marks' a same s e = ground (arith, a, same, s, e)
  finds_done c r marks marks' a same s e = ground (arith, e)

module _ (u : Uuid) where
  -- The id `u` is marked done only where a handler has succeeded for it or a worker has given it up.
  abbrev pub Accounted : List MessageId → List MessageId → Marks → Type 0
  Accounted ss ds marks = marks u ≡ some done → 1 ≤ won u ss + won u ds

  module _ {E H : Type 0} where
    -- What a run for the message `id` says of these logs.
    pub record Facts (ss ds : List MessageId) (id : MessageId) (t : Run E H) : Type 0 where
      pub succeeded : (id.uuid == u) ≡ true → any_ok (handler_replies t) ≡ true → 1 ≤ won u ss
      pub found_done :
          (id.uuid == u) ≡ true → claim_reply t ≡ some (ok already_done) → 1 ≤ won u ss + won u ds
      pub given_up :
          (id.uuid == u) ≡ true → any_marked (closings t) ≡ true → 1 ≤ won u ss + won u ds

    module _ (id : MessageId) (φ : Phase) (t : Run E H) (c : Call E H) (r : Reply c)
        (marks marks' : Marks) (ss ds : List MessageId) (permitted : allowed id φ c ≡ true)
        (serves : Serves marks c r marks') (accounted : Accounted ss ds marks)
        (facts : Facts ss ds id t) where
      wins : won u (success c r ++ ss) ≡ won u (success c r) + won u ss
      wins = won-append u (success c r) ss

      drops : won u (dismissal id t c ++ ds) ≡ won u (dismissal id t c) + won u ds
      drops = won-append u (dismissal id t c) ds

      pub call-Accounted : Accounted (success c r ++ ss) (dismissal id t c ++ ds) marks'
      call-Accounted h = ground (arith, h, wins, drops)

      pub call-Facts : Facts (success c r ++ ss) (dismissal id t c ++ ds) id (t ++ (c, r) ∷ [])
      call-Facts = record {
        succeeded = λ same won_it. ground (
          arith,
          wins,
          any_ok-snoc t c r,
          facts.succeeded same,
          won_it,
          wins_once u id φ c r permitted same,
        );
        found_done = λ same found. ground (
          arith,
          wins,
          drops,
          claim_reply-snoc t c r (ok already_done) found,
          finds_done u id φ c r marks marks' permitted same serves,
          facts.found_done same,
          accounted,
        );
        given_up = λ same m. ground (
          arith,
          wins,
          drops,
          any_marked-snoc t c r,
          m,
          facts.given_up same,
          facts.succeeded same,
          gives_up u id φ t c r same,
        );
      }
