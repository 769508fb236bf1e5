-- ===== src/Subscriber/Loop/Drain.antt =====
-- The end of the consumer task: `drain` signals, and the task waits for its workers.
use eventbus_rs.Prelude.{
  ℕ, zero, suc, ◌+◌, ◌≤◌, ◌≡◌, refl, ap, ◌∙◌, subst, arith, Bool, true, false, Option, some, List,
  [], ◌∷◌,
}
use eventbus_rs.Subscriber.Loop.{
  Point, draining, stopped, permitting, Loop, Happening, worker_ended, joined, all_joined, init,
  step, run, at_point, continue,
}
use eventbus_rs.Subscriber.Loop.Invariant.{Holds, run-keeps}

module _ {M : Type 0} where
  -- After the loop.
  abbrev pub is_over : Point M → Bool
  is_over draining = true
  is_over stopped = true
  is_over _ = false

  pub record Drained (s t : Loop M) : Type 0 where
    pub over : is_over t.point ≡ true
    pub received : t.received ≡ s.received
    pub spawned : t.spawned ≡ s.spawned
    pub fewer : t.active ≤ s.active

  step-Drained : (s t : Loop M) (h : Happening M) → Drained s t → Holds (Drained s) (step t h)
  unfolding step at_point
  step-Drained s t h d = ground arith

  -- Once the task has left its loop it takes no message from the stream and starts no worker,
  -- whatever else happens to it.
  pub drain_final :
      (s : Loop M) (hs : List (Happening M)) → is_over s.point ≡ true → Holds (Drained s) (run s hs)
  drain_final s hs o =
      run-keeps (Drained s) (step-Drained s) s hs
        (record { over = o; received = refl; spawned = refl; fewer = omega arith })

  -- The events that end the task: every worker ends, every one is joined, `join_next` is `None`.
  abbrev pub joins : ℕ → List (Happening M)
  joins zero = all_joined ∷ []
  joins (suc n) = joined ∷ joins n

  abbrev pub finish : ℕ → ℕ → List (Happening M)
  finish zero e = joins e
  finish (suc n) e = worker_ended ∷ finish n (suc e)

  -- The state while the task drains: the workers that run, those that have ended, the free permits.
  waiting : Loop M → ℕ → ℕ → ℕ → Loop M
  waiting s n e p = record s { point = draining; active = n; ended = e; permits = p }

  step-joined :
      (s : Loop M) (e p : ℕ) → step (waiting s 0 (suc e) p) joined ≡ some (waiting s 0 e p)
  unfolding waiting step at_point
  step-joined s e p = ground arith

  step-ended :
      (s : Loop M) (n e p : ℕ)
      → step (waiting s (suc n) e p) worker_ended ≡ some (waiting s n (suc e) (suc p))
  unfolding waiting step at_point
  step-ended s n e p = ground arith

  after : List (Happening M) → Option (Loop M) → Option (Loop M)
  after hs = continue (λ t. run t hs)

  run-joins :
      (s : Loop M) (e p : ℕ)
      → run (waiting s 0 e p) (joins e) ≡ some (record (waiting s 0 0 p) { point = stopped })
  unfolding waiting run step at_point continue after
  run-joins s zero p = refl
  run-joins s (suc e) p = ap (after (joins e)) (step-joined s e p) ∙ run-joins s e p

  run-finish :
      (s : Loop M) (n e p : ℕ)
      → run (waiting s n e p) (finish n e)
        ≡ some (record (waiting s 0 0 (p + n)) { point = stopped })
  unfolding waiting run continue after
  run-finish s zero e p =
      run-joins s e p ∙ ap (λ q. some (record (waiting s 0 0 q) { point = stopped })) (omega arith)
  run-finish s (suc n) e p =
      ap (after (finish n (suc e))) (step-ended s n e p)
      ∙ run-finish s n (suc e) (suc p)
      ∙ ap (λ q. some (record (waiting s 0 0 q) { point = stopped })) (omega arith)

  -- If each worker that runs ends, the task ends: when it drains, its workers end one after the other
  -- and it joins them all, then it stops, with the permits back and no worker left.
  pub drain_completes :
      (s : Loop M)
      → s.point ≡ draining
      → run s (finish s.active s.ended)
        ≡ some (record s { point = stopped; active = 0; ended = 0; permits = s.permits + s.active })
  unfolding waiting
  drain_completes s e =
      ap (λ p. run (record s { point = p }) (finish s.active s.ended)) e
      ∙ run-finish s s.active s.ended s.permits

  pub record Idle (s : Loop M) : Type 0 where
    pub no_permits : s.permits + s.active ≡ 0
    pub none_spawned : s.spawned ≡ []

  step-Idle : (s : Loop M) (h : Happening M) → Idle s → Holds Idle (step s h)
  unfolding step at_point
  step-Idle s h i = ground arith

  abbrev pub Stuck : M → Loop M → Type 0
  Stuck m s = Idle s × (s.point ≡ permitting m)

  step-Stuck : (m : M) (s : Loop M) (h : Happening M) → Stuck m s → Holds (Stuck m) (step s h)
  unfolding step at_point
  step-Stuck m s h i = ground arith

  -- A subscription with concurrency 0 that has received a message waits for a permit for ever: after
  -- any further events, a `drain` among them, it is still there and no worker was started.
  pub zero_concurrency-Stuck :
      (m : M) (hs is : List (Happening M)) (s : Loop M)
      → run (init 0) hs ≡ some s
      → s.point ≡ permitting m
      → Holds (Stuck m) (run s is)
  unfolding init
  zero_concurrency-Stuck m hs is s e waits =
      run-keeps (Stuck m) (step-Stuck m) s is (subst (Holds Idle) e idle, waits)
    where
      idle : Holds Idle (run (init 0) hs)
      idle =
          run-keeps Idle step-Idle (init 0) hs (record { no_permits = refl; none_spawned = refl })
