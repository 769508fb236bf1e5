-- ===== src/Redelivery/Store.antt =====
-- The store and the publishes of the deliveries.
use eventbus_rs.Prelude.{◌≡◌, refl, arith, Bool, true, false, ◌∷◌}
use eventbus_rs.Core.Idempotency.{Marks}
use eventbus_rs.Effect.{ret, call}
use eventbus_rs.Calls.{Call, Reply, Task, try_claim, mark_done, release}
use eventbus_rs.Subscriber.Observe.{Run}
use eventbus_rs.Fleet.System.{Serves}
use eventbus_rs.Redelivery.{Environment, fails, answer, after, serve}
use eventbus_rs.Redelivery.Attempt.{works, all_work, stored}

module _ {E H : Type 0} where
  works-answer :
      (marks : Marks) (c : Call E H) (r : Reply c)
      → works c r ≡ true
      → works c (answer marks c r) ≡ true
  works-answer marks (try_claim k) r w = refl
  works-answer marks c r w = w

  fails-answer :
      (marks : Marks) (c : Call E H) (r : Reply c)
      → fails c r ≡ false
      → fails c (answer marks c r) ≡ false
  fails-answer marks (try_claim k) r w = ground (arith, w)
  fails-answer marks c r w = w

  -- The publishes that an environment lets through do not fail in its runs.
  pub serve-works :
      {A : Type 0} (o : Environment E H)
      → ((h : Run E H) (c : Call E H) → works c (o.replies h c) ≡ true)
      → (h : Run E H) (marks : Marks) (p : Task E H A) → all_work (serve o h marks p).calls ≡ true
  unfolding serve
  serve-works o w h marks (ret a) = refl
  serve-works o w h marks (call c k) =
      let r : Reply c = answer marks c (o.replies h c) in
      ground (
        arith,
        works-answer marks c (o.replies h c) (w h c),
        serve-works o w ((c, r) ∷ h) (after marks c r (o.loses h c)) (k r),
      )

  -- Nor do its requests to the store.
  pub serve-stored :
      {A : Type 0} (o : Environment E H)
      → ((h : Run E H) (c : Call E H) → fails c (o.replies h c) ≡ false)
      → (h : Run E H) (marks : Marks) (p : Task E H A) → stored (serve o h marks p).calls ≡ true
  unfolding serve
  serve-stored o w h marks (ret a) = refl
  serve-stored o w h marks (call c k) =
      let r : Reply c = answer marks c (o.replies h c) in
      ground (
        arith,
        fails-answer marks c (o.replies h c) (w h c),
        serve-stored o w ((c, r) ∷ h) (after marks c r (o.loses h c)) (k r),
      )

  -- What the store answers and does is what the trait promises.
  pub answer-Serves :
      (marks : Marks) (c : Call E H) (r : Reply c) (lost : Bool)
      → Serves marks c (answer marks c r) (after marks c (answer marks c r) lost)
  answer-Serves marks (try_claim k) r lost = ground arith
  answer-Serves marks (mark_done k) r lost = ground arith
  answer-Serves marks (release k) r lost = ground arith
  answer-Serves marks c r lost = refl
