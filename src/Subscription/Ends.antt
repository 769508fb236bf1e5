-- ===== src/Subscription/Ends.antt =====
-- A subscription can always be drained: no state of the task and its workers is a dead end.
use mathlib.Core.Option.{some-injective}
use eventbus_rs.Prelude.{
  ℕ, suc, ◌+◌, ◌-◌, ◌≡◌, refl, sym, ap, subst, arith, true, false, some, List, [], ◌∷◌, ◌++◌,
  length, ok, err,
}
use eventbus_rs.Core.Error.{nats}
use eventbus_rs.Effect.{ret, call}
use eventbus_rs.Calls.{
  Call, Reply, Task, try_claim, mark_done, release, handle, double_ack, ack_with, now,
  publish_with_headers, publish_ack, within,
}
use eventbus_rs.Subscriber.Options.{ProcessingOptions}
use eventbus_rs.Subscriber.Message.{Message, Sdk}
use eventbus_rs.Subscriber.Observe.{Run}
use eventbus_rs.Subscriber.Loop.{
  Point, acquiring, opening, sleeping, polling, permitting, draining, stopped, Loop, Happening, run,
}
use eventbus_rs.Subscriber.Loop.Workers.{step-ends, step-permits}
use eventbus_rs.Subscriber.Loop.Exits.{
  all_own, run-cons, looping, leave, run-leave, all_own-leave, all_own-joins,
}
use eventbus_rs.Subscriber.Loop.Drain.{joins, finish, drain_completes}
use eventbus_rs.Subscription.Jobs.{reach-Tracked}
use eventbus_rs.Subscription.{Job, System, job, Step, moves, spawns, calls, returns, Reach}

module _ {E H : Type 0} where
  -- An answer to a call: it fails, and the handler succeeds.
  abbrev some_reply : (c : Call E H) → Reply c
  some_reply (try_claim k) = err (nats "")
  some_reply (mark_done k) = ok tt
  some_reply (release k) = ok tt
  some_reply (handle ctx e) = ok tt
  some_reply (within d c) = err tt
  some_reply now = err tt
  some_reply double_ack = ok tt
  some_reply (ack_with kind) = ok tt
  some_reply (publish_with_headers s h b) = ok tt
  some_reply publish_ack = ok tt

module _ {E H : Type 0} (sdk : Sdk E H) (opts : ProcessingOptions) where
  pub data Steps (s : System E H) : System E H → Type 0 where
    here : Steps s s
    onward : {t u : System E H} → Steps s t → Step sdk opts t u → Steps s u

  Steps-trans : {s t u : System E H} → Steps s t → Steps t u → Steps s u
  Steps-trans a here = a
  Steps-trans a (onward b m) = onward (Steps-trans a b) m

  -- The task makes these steps on its own.
  run-Steps :
      (hs : List (Happening (Message H))) (s : System E H) (l : Loop (Message H))
      → all_own hs ≡ true
      → run s.loop hs ≡ some l
      → Steps s (record s { loop = l })
  unfolding run
  run-Steps [] s l o e =
      subst (λ (m : Loop (Message H)). Steps s (record s { loop = m })) (some-injective _ _ e) here
  run-Steps (h ∷ hs) s l o e =
      let r = run-cons s.loop l h hs e in
      Steps-trans (onward here (moves h r.0 (ground arith) r.1))
        (run-Steps hs (record s { loop = r.0 }) l (ground arith) r.2)

  abbrev ended : Loop (Message H) → Loop (Message H)
  ended l = record l { active = l.active - 1; ended = l.ended + 1; permits = l.permits + 1 }

  -- A worker can come to its end.
  finish_job :
      (task : Task E H (Unit {0})) (s : System E H) (msg : Message H) (t : Run E H)
      (rest : List (Job E H)) (n : ℕ)
      → s.jobs ≡ record { msg = msg; calls = t; task = task } ∷ rest
      → s.loop.active ≡ suc n
      → (finished : List (Message H × Run E H)) × Steps s
          (record s { loop = ended s.loop; jobs = rest; finished = finished })
  finish_job (ret u) s msg t rest n e a = (
    (msg, t) ∷ s.finished,
    onward here (returns [] rest msg t u (ended s.loop) e (step-ends s.loop n a)),
  )
  finish_job (call c k) s msg t rest n e a =
      let r : Reply c = some_reply c in
      let j : Job E H = record { msg = msg; calls = t ++ (c, r) ∷ []; task = k r } in
      let on =
        finish_job (k r) (record s { jobs = j ∷ rest }) msg (t ++ (c, r) ∷ []) rest n refl a in
      (on.0, Steps-trans (onward here (calls [] rest msg t c k r e)) on.1)

  -- No worker runs, and the task is where it was.
  record Quiet (s t : System E H) : Type 0 where
    jobs : t.jobs ≡ []
    active : t.loop.active ≡ 0
    point : t.loop.point ≡ s.loop.point
    permits : t.loop.permits ≡ s.loop.permits + s.loop.active

  finish_jobs :
      (js : List (Job E H)) (s : System E H)
      → s.jobs ≡ js
      → s.loop.active ≡ length js
      → (t : System E H) × Steps s t × Quiet s t
  finish_jobs [] s e a =
      (s, here, record { jobs = e; active = a; point = refl; permits = omega (arith, a) })
  finish_jobs (j ∷ js) s e a =
      let one = finish_job j.task s j.msg j.calls js (length js) e a in
      let u : System E H = record s { loop = ended s.loop; jobs = js; finished = one.0 } in
      let on = finish_jobs js u refl (omega (arith, a)) in
      (
        on.0,
        Steps-trans one.1 on.1,
        record {
          jobs = on.2.jobs;
          active = on.2.active;
          point = on.2.point;
          permits = omega (arith, a, on.2.permits);
        },
      )

  -- The task can come to its end with no worker left.
  abbrev CanStop : System E H → Type 0
  CanStop s = (t : System E H) × Steps s t × (t.loop.point ≡ stopped) × (t.jobs ≡ [])

  CanStop-after : {s t : System E H} → Steps s t → CanStop t → CanStop s
  CanStop-after a (t, b, p, j) = (t, Steps-trans a b, p, j)

  draining-CanStop :
      (s : System E H) → s.jobs ≡ [] → s.loop.active ≡ 0 → s.loop.point ≡ draining → CanStop s
  draining-CanStop s j a p =
      let l : Loop (Message H) = s.loop in
      let end : Loop (Message H) = record l {
        point = stopped;
        active = 0;
        ended = 0;
        permits = l.permits + l.active;
      } in
      (
        record s { loop = end },
        run-Steps (joins l.ended) s end (all_own-joins (Message H) l.ended)
            (subst (λ (n : ℕ). run l (finish n l.ended) ≡ some end) a (drain_completes l p)),
        refl,
        j,
      )

  looping-CanStop :
      (s : System E H) → s.jobs ≡ [] → s.loop.active ≡ 0 → looping s.loop.point ≡ true → CanStop s
  looping-CanStop s j a p =
      let l : Loop (Message H) = record s.loop { point = draining; shutdown = false } in
      CanStop-after
        (run-Steps (leave s.loop.point) s l (all_own-leave s.loop.point p) (run-leave s.loop p))
        (draining-CanStop (record s { loop = l }) j a refl)

  permitting-CanStop :
      (s : System E H) (m : Message H) (n : ℕ)
      → s.jobs ≡ []
      → s.loop.active ≡ 0
      → s.loop.permits ≡ suc n
      → s.loop.point ≡ permitting m
      → CanStop s
  permitting-CanStop s m n j a q p =
      let l : Loop (Message H) = record s.loop {
        point = polling;
        permits = s.loop.permits - 1;
        active = s.loop.active + 1;
        spawned = s.loop.spawned ++ m ∷ [];
      } in
      let t : System E H = record s { loop = l; jobs = job sdk opts m ∷ s.jobs } in
      let on = finish_jobs t.jobs t refl (omega (arith, a, ap length j)) in
      CanStop-after (Steps-trans (onward here (spawns m l p (step-permits s.loop m n p q))) on.1)
        (looping-CanStop on.0 on.2.jobs on.2.active (ap looping on.2.point))

  quiet-CanStop :
      (s : System E H) (n : ℕ) (p : Point (Message H))
      → s.loop.point ≡ p
      → s.jobs ≡ []
      → s.loop.active ≡ 0
      → s.loop.permits ≡ suc n
      → CanStop s
  quiet-CanStop s n acquiring e j a q = looping-CanStop s j a (ap looping e)
  quiet-CanStop s n opening e j a q = looping-CanStop s j a (ap looping e)
  quiet-CanStop s n sleeping e j a q = looping-CanStop s j a (ap looping e)
  quiet-CanStop s n polling e j a q = looping-CanStop s j a (ap looping e)
  quiet-CanStop s n (permitting m) e j a q = permitting-CanStop s m n j a q e
  quiet-CanStop s n draining e j a q = draining-CanStop s j a e
  quiet-CanStop s n stopped e j a q = (s, here, e, j)

  -- With a positive concurrency no state that the task and its workers can reach is a dead end: whatever
  -- has happened, there is a way on by which every worker returns, the task drains, and it stops with
  -- no worker left.
  pub drain_possible :
      (n : ℕ) {s : System E H}
      → Reach sdk opts (suc n) s
      → (t : System E H) × Steps s t × (t.loop.point ≡ stopped) × (t.jobs ≡ [])
  drain_possible n {s} r =
      let i = reach-Tracked sdk opts (suc n) r in
      let on = finish_jobs s.jobs s refl (sym i.workers) in
      CanStop-after on.1 (
        quiet-CanStop on.0 n on.0.loop.point refl on.2.jobs on.2.active
          (omega (arith, on.2.permits, i.task.conserved)))
