-- ===== src/Subscriber/Loop/Workers.antt =====
-- What the steps of the consumer task do to its workers.
use eventbus_rs.Prelude.{ℕ, suc, ◌-◌, ◌+◌, ◌≡◌, arith, Bool, true, false, some, [], ◌∷◌, ◌++◌}
use eventbus_rs.Subscriber.Loop.{
  permitting, Loop, Happening, polling, worker_ended, permitted, step, at_point,
}

module _ {M : Type 0} where
  -- What happens to the task alone: all but the start and the end of a worker.
  abbrev pub is_own : Happening M → Bool
  is_own permitted = false
  is_own worker_ended = false
  is_own _ = true

  pub step-own :
      (s t : Loop M) (h : Happening M)
      → is_own h ≡ true
      → step s h ≡ some t
      → (t.active ≡ s.active) × (t.spawned ≡ s.spawned)
  unfolding step at_point
  step-own s t h o e = (ground arith, ground arith)

  pub step-permitted :
      (s t : Loop M) (m : M)
      → s.point ≡ permitting m
      → step s permitted ≡ some t
      → (t.active ≡ s.active + 1) × (t.spawned ≡ s.spawned ++ m ∷ [])
  unfolding step at_point
  step-permitted s t m o e = (ground arith, ground arith)

  pub step-ended :
      (s t : Loop M)
      → step s worker_ended ≡ some t
      → (t.active + 1 ≡ s.active) × (t.spawned ≡ s.spawned)
  unfolding step at_point
  step-ended s t e = (ground arith, ground arith)

  pub step-ends :
      (s : Loop M) (n : ℕ)
      → s.active ≡ suc n
      → step s worker_ended
        ≡ some (record s { active = s.active - 1; ended = s.ended + 1; permits = s.permits + 1 })
  unfolding step
  step-ends s n e = ground arith

  pub step-permits :
      (s : Loop M) (m : M) (n : ℕ)
      → s.point ≡ permitting m
      → s.permits ≡ suc n
      → step s permitted
        ≡ some (record s {
          point = polling;
          permits = s.permits - 1;
          active = s.active + 1;
          spawned = s.spawned ++ m ∷ [];
        })
  unfolding step at_point
  step-permits s m n e f = ground arith
