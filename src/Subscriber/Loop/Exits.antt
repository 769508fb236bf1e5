-- ===== src/Subscriber/Loop/Exits.antt =====
-- How a signalled consumer task leaves its loop.
use eventbus_rs.Prelude.{
  ℕ, zero, suc, ◌≡◌, refl, arith, Bool, true, false, ◌&&◌, Option, some, none, List, [], ◌∷◌,
}
use eventbus_rs.Subscriber.Loop.{
  Point, acquiring, opening, sleeping, polling, permitting, draining, stopped, Loop, Happening,
  signalled, shutdown_seen, acquire_failed, open_failed, run, step, at_point, continue,
}
use eventbus_rs.Subscriber.Loop.Workers.{is_own}
use eventbus_rs.Subscriber.Loop.Drain.{joins}

module _ {M : Type 0} where
  -- The task is in its loop and does not wait for a permit.
  abbrev pub looping : Point M → Bool
  looping acquiring = true
  looping opening = true
  looping sleeping = true
  looping polling = true
  looping _ = false

  -- A request that is under way fails, and the task sees the shutdown at its next `select!`.
  abbrev pub leave : Point M → List (Happening M)
  leave acquiring = signalled ∷ acquire_failed ∷ shutdown_seen ∷ []
  leave opening = signalled ∷ open_failed ∷ shutdown_seen ∷ []
  leave _ = signalled ∷ shutdown_seen ∷ []

  run-leave-at :
      (s : Loop M) (p : Point M)
      → looping p ≡ true
      → run (record s { point = p }) (leave p)
        ≡ some (record s { point = draining; shutdown = false })
  unfolding run step at_point continue
  run-leave-at s acquiring e = refl
  run-leave-at s opening e = refl
  run-leave-at s sleeping e = refl
  run-leave-at s polling e = refl
  run-leave-at s (permitting m) e = cc
  run-leave-at s draining e = cc
  run-leave-at s stopped e = cc

  pub run-leave :
      (s : Loop M)
      → looping s.point ≡ true
      → run s (leave s.point) ≡ some (record s { point = draining; shutdown = false })
  run-leave s e = run-leave-at s s.point e

  abbrev pub all_own : List (Happening M) → Bool
  all_own [] = true
  all_own (h ∷ hs) = is_own h && all_own hs

  pub all_own-leave : (p : Point M) → looping p ≡ true → all_own (leave p) ≡ true
  all_own-leave p e = ground arith

  -- A run, one step at a time.
  pub run-cons :
      (s l : Loop M) (h : Happening M) (hs : List (Happening M))
      → run s (h ∷ hs) ≡ some l
      → (t : Loop M) × (step s h ≡ some t) × (run t hs ≡ some l)
  unfolding run continue
  run-cons s l h hs e = first (step s h) refl e
    where
      first :
          (o : Option (Loop M))
          → step s h ≡ o
          → continue (λ t. run t hs) o ≡ some l
          → (t : Loop M) × (step s h ≡ some t) × (run t hs ≡ some l)
      first none a b = cc
      first (some t) a b = (t, a, b)

pub all_own-joins : (M : Type 0) (n : ℕ) → all_own (joins {M = M} n) ≡ true
all_own-joins M zero = refl
all_own-joins M (suc n) = all_own-joins M n
