-- ===== src/Subscription/Jobs.antt =====
-- The workers of a subscription: how many there are, and that none of its messages gets lost.
use eventbus_rs.Prelude.{
  ℕ, ◌+◌, ◌≡◌, refl, sym, ap, ◌∙◌, arith, Bool, List, [], ◌∷◌, ◌++◌, length, length-append, count,
  count-append, if◌then◌else◌,
}
use eventbus_rs.Effect.{ret, call}
use eventbus_rs.Subscriber.Options.{ProcessingOptions}
use eventbus_rs.Subscriber.Message.{Message, Sdk}
use eventbus_rs.Subscriber.Observe.{Run}
use eventbus_rs.Subscriber.Loop.{permitted, worker_ended, init}
use eventbus_rs.Subscriber.Loop.Workers.{step-own, step-permitted, step-ended}
use eventbus_rs.Subscriber.Loop.Invariant.{Inv, init-Inv, next-Inv}
use eventbus_rs.Subscription.{
  Job, System, Step, moves, spawns, calls, returns, panics, Reach, start, later,
}

module _ {E H : Type 0} where
  abbrev pub job_passes : (Message H → Bool) → Job E H → Bool
  job_passes p j = p j.msg

  abbrev pub end_passes : (Message H → Bool) → Message H × Run E H → Bool
  end_passes p w = p w.0

  -- The messages that have been given to a worker, by what became of the worker.
  abbrev pub traced : (Message H → Bool) → System E H → ℕ
  traced p s = count (job_passes p) s.jobs + count (end_passes p) s.finished + count p s.panicked

  pub record Tracked (concurrency : ℕ) (s : System E H) : Type 0 where
    pub task : Inv concurrency s.loop
    pub workers : length s.jobs ≡ s.loop.active
    pub kept : (p : Message H → Bool) → count p s.loop.spawned ≡ traced p s

  -- Into the part of a list around one entry.
  length-around :
      (xs ys : List (Job E H)) (j : Job E H) → length (xs ++ j ∷ ys) ≡ length (xs ++ ys) + 1
  length-around xs ys j = omega (arith, length-append xs (j ∷ ys), length-append xs ys)

  count-around :
      (p : Job E H → Bool) (xs ys : List (Job E H)) (j : Job E H)
      → count p (xs ++ j ∷ ys) ≡ count p (xs ++ ys) + (if p j then 1 else 0)
  count-around p xs ys j = omega (arith, count-append p xs (j ∷ ys), count-append p xs ys)

  init-Tracked :
      (c : ℕ) → Tracked c (record { loop = init c; jobs = []; finished = []; panicked = [] })
  unfolding init
  init-Tracked c = record { task = init-Inv c; workers = refl; kept = λ p. refl }

module _ {E H : Type 0} (sdk : Sdk E H) (opts : ProcessingOptions) (c : ℕ) where
  step-Tracked : {s t : System E H} → Tracked c s → Step sdk opts s t → Tracked c t
  step-Tracked {s} i (moves h l o e) =
      let w = step-own s.loop l h o e in
      record {
        task = next-Inv c s.loop l h i.task e;
        workers = i.workers ∙ sym w.0;
        kept = λ p. ap (count p) w.1 ∙ i.kept p;
      }
  step-Tracked {s} i (spawns msg l a e) =
      let w = step-permitted s.loop l msg a e in
      record {
        task = next-Inv c s.loop l permitted i.task e;
        workers = omega (arith, i.workers, w.0);
        kept = λ p.
            omega (arith, i.kept p, ap (count p) w.1, count-append p s.loop.spawned (msg ∷ []));
      }
  step-Tracked {s} i (calls before after msg t q k r a) =
      let j : Job E H = record { msg = msg; calls = t; task = call q k } in
      let j2 : Job E H = record { msg = msg; calls = t ++ (q, r) ∷ []; task = k r } in
      record {
        task = i.task;
        workers = omega (
          arith,
          i.workers,
          ap length a,
          length-around before after j,
          length-around before after j2,
        );
        kept = λ p. omega (
          arith,
          i.kept p,
          ap (count (job_passes p)) a,
          count-around (job_passes p) before after j,
          count-around (job_passes p) before after j2,
        );
      }
  step-Tracked {s} i (returns before after msg t u l a e) =
      let j : Job E H = record { msg = msg; calls = t; task = ret u } in
      let w = step-ended s.loop l e in
      record {
        task = next-Inv c s.loop l worker_ended i.task e;
        workers = omega (arith, i.workers, ap length a, length-around before after j, w.0);
        kept = λ p. omega (
          arith,
          i.kept p,
          ap (count (job_passes p)) a,
          count-around (job_passes p) before after j,
          ap (count p) w.1,
        );
      }
  step-Tracked {s} i (panics before after j l a e) =
      let w = step-ended s.loop l e in
      record {
        task = next-Inv c s.loop l worker_ended i.task e;
        workers = omega (arith, i.workers, ap length a, length-around before after j, w.0);
        kept = λ p. omega (
          arith,
          i.kept p,
          ap (count (job_passes p)) a,
          count-around (job_passes p) before after j,
          ap (count p) w.1,
        );
      }

  -- However the scheduler interleaves the task and its workers: the invariant of the task holds; the
  -- workers that run are as many as have a permit, so never more than the concurrency; and each message
  -- given to a worker, by any test on messages, is with a worker that runs, has returned or has
  -- panicked.
  pub reach-Tracked : {s : System E H} → Reach sdk opts c s → Tracked c s
  reach-Tracked start = init-Tracked c
  reach-Tracked (later r m) = step-Tracked (reach-Tracked r) m
