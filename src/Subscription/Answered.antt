-- ===== src/Subscription/Answered.antt =====
-- What the workers of a subscription have done when they return, and what is left of its messages
-- when it has drained.
use eventbus_rs.Prelude.{
  ℕ, ◌+◌, ◌≡◌, sym, ap, subst, ◌∙◌, arith, Bool, true, Result, ok, err, String, List, [], ◌∷◌, ◌++◌,
  length, count, append_assoc, append_nil, if◌then◌else◌, All, All-around, All-insert,
}
use eventbus_rs.Effect.{ret, call}
use eventbus_rs.Effect.Traces.{Every, Every-mono}
use eventbus_rs.Calls.{Call, Reply, Task}
use eventbus_rs.Subscriber.Options.{ProcessingOptions}
use eventbus_rs.Subscriber.Message.{Message, Info, Sdk, message_id}
use eventbus_rs.Subscriber.Observe.{
  Run, verdicts, closings, claim_reply, handler_replies, confirmed, answers_last,
}
use eventbus_rs.Subscriber.Outcome.{decision, won, closing_for}
use eventbus_rs.Subscriber.Process.{process_message}
use eventbus_rs.Subscriber.Loop.{stopped}
use eventbus_rs.Subscriber.Loop.Invariant.{is_stopped, and_in_hand}
use eventbus_rs.Subscription.{
  Job, System, Step, moves, spawns, calls, returns, panics, Reach, start, later,
}
use eventbus_rs.Subscription.Jobs.{end_passes, job_passes, reach-Tracked}

length_zero : {A : Type 0} (xs : List A) → length xs ≡ 0 → xs ≡ []
length_zero xs e = ground arith

module _ {E H : Type 0} (sdk : Sdk E H) (opts : ProcessingOptions) where
  -- The calls of a whole run for a message: no call where its metadata cannot be read; else one
  -- answer, as the decision table says, after all other calls, and the claim closed accordingly.
  abbrev pub Answers : Message H → Result Info String → Run E H → Type 0
  Answers msg (err _) t = t ≡ []
  Answers msg (ok info) t =
      (length (verdicts t) ≡ 1)
      × (answers_last t ≡ true)
      × (verdicts t
          ≡ decision opts info (confirmed t) (claim_reply t) (sdk.from_slice msg.payload)
              (handler_replies t))
      × (closings t ≡ (
          if won (claim_reply t)
          then closing_for (message_id sdk opts msg info) (verdicts t)
          else []))

  process_message-Answers :
      (msg : Message H) → Every (Answers msg msg.info) (process_message sdk opts msg)
  unfolding process_message
  process_message-Answers msg = ground arith

  -- Whatever holds of every run for the job's message, by the calls it makes, holds of the calls so
  -- far with whatever the job still does.
  abbrev OnCourse : Job E H → Type 1
  OnCourse j =
      (P : Run E H → Type 0)
      → Every P (process_message sdk opts j.msg)
      → Every (λ t. P (j.calls ++ t)) j.task

  abbrev pub Answered : Message H × Run E H → Type 0
  Answered w = Answers w.0 w.0.info w.1

  record Orderly (s : System E H) : Type 1 where
    working : All OnCourse s.jobs
    done : All Answered s.finished

  call-OnCourse :
      (msg : Message H) (t : Run E H) (c : Call E H) (k : Reply c → Task E H (Unit {0}))
      (r : Reply c)
      → OnCourse (record { msg = msg; calls = t; task = call c k })
      → OnCourse (record { msg = msg; calls = t ++ (c, r) ∷ []; task = k r })
  call-OnCourse msg t c k r j P e =
      Every-mono (λ u. P (t ++ (c, r) ∷ u)) (λ u. P ((t ++ (c, r) ∷ []) ++ u)) (k r)
        (λ u. subst P (sym (append_assoc t ((c, r) ∷ []) u))) (j P e r)

  ret-Answered :
      (msg : Message H) (t : Run E H) (u : Unit {0})
      → OnCourse (record { msg = msg; calls = t; task = ret u })
      → Answered (msg, t)
  ret-Answered msg t u j =
      subst (Answers msg msg.info) (append_nil t)
        (j (Answers msg msg.info) (process_message-Answers msg))

  step-Orderly : {s t : System E H} → Orderly s → Step sdk opts s t → Orderly t
  step-Orderly i (moves h l o e) = record { working = i.working; done = i.done }
  step-Orderly i (spawns msg l a e) = record { working = ((λ P p. p), i.working); done = i.done }
  step-Orderly i (calls before after msg t c k r a) =
      let split = All-around OnCourse before after _ (subst (All OnCourse) a i.working) in
      record {
        working = All-insert OnCourse before after _ (call-OnCourse msg t c k r split.0) split.1;
        done = i.done;
      }
  step-Orderly i (returns before after msg t u l a e) =
      let split = All-around OnCourse before after _ (subst (All OnCourse) a i.working) in
      record { working = split.1; done = (ret-Answered msg t u split.0, i.done) }
  step-Orderly i (panics before after j l a e) =
      let split = All-around OnCourse before after _ (subst (All OnCourse) a i.working) in
      record { working = split.1; done = i.done }

module _ {E H : Type 0} (sdk : Sdk E H) (opts : ProcessingOptions) (concurrency : ℕ) where
  reach-Orderly : {s : System E H} → Reach sdk opts concurrency s → Orderly sdk opts s
  reach-Orderly start = record { working = tt; done = tt }
  reach-Orderly (later r m) = step-Orderly sdk opts (reach-Orderly r) m

  -- However the scheduler interleaves the task and its workers, and whatever the server, the store
  -- and the handler do: a worker that has returned made no call where the metadata of its message
  -- could not be read; else it answered the delivery once, as the decision table says, after all its
  -- other calls, and closed the claim accordingly.
  pub returned-Answered :
      {s : System E H} → Reach sdk opts concurrency s → All (Answered sdk opts) s.finished
  returned-Answered r = (reach-Orderly r).done

  -- Once the task has stopped, no worker is left, and each message that it took from the stream, by
  -- any test on messages, has been given to a worker that has returned or panicked.
  pub stopped_accounts :
      {s : System E H}
      → Reach sdk opts concurrency s
      → s.loop.point ≡ stopped
      → (s.jobs ≡ [])
        × ((p : Message H → Bool)
            → count p s.loop.received ≡ count (end_passes p) s.finished + count p s.panicked)
  stopped_accounts {s} r e =
      let i = reach-Tracked sdk opts concurrency r in
      let no_jobs : s.jobs ≡ [] =
        length_zero s.jobs (omega (arith, i.workers, i.task.settled (ap is_stopped e))) in
      let all_spawned : s.loop.received ≡ s.loop.spawned =
        i.task.ordered ∙ ap (and_in_hand s.loop.spawned) e in
      (
        no_jobs,
        (λ p. omega (arith, ap (count p) all_spawned, i.kept p, ap (count (job_passes p)) no_jobs)),
      )
