-- ===== src/Deployment/Rules.antt =====
-- The workers of one subscription: the rules that they keep, and the claims that they hold.
use eventbus_rs.Prelude.{
  ℕ, ◌+◌, ◌≤◌, ◌≡◌, refl, sym, ap, subst, arith, List, [], ◌∷◌, ◌++◌, ok, err, Result, String,
  total, total-around, if◌then◌else◌, All, All-around, All-insert,
}
use eventbus_rs.Core.Id.{Uuid, MessageId}
use eventbus_rs.Core.Idempotency.{Marks, present}
use eventbus_rs.Effect.{ret, call}
use eventbus_rs.Calls.{Call, Reply, Task}
use eventbus_rs.Subscriber.Options.{ProcessingOptions}
use eventbus_rs.Subscriber.Message.{Message, Info, Sdk, message_id}
use eventbus_rs.Subscriber.Observe.{Run}
use eventbus_rs.Subscriber.Discipline.{Phase, fresh, next, Obeys, process_message-Obeys}
use eventbus_rs.Subscriber.Process.{process_message}
use eventbus_rs.Subscription.{Job, System, Step, moves, spawns, calls, returns, panics}
use eventbus_rs.Fleet.System.{success, Serves}
use eventbus_rs.Fleet.Budget.{won, hold, call_budget}
use eventbus_rs.Fleet.Exclusion.{runs_task, runs_call-holds}
use eventbus_rs.Deployment.{Agrees, gained}

module _ {E H : Type 0} where
  -- The phase that a run has led to.
  abbrev pub phase_from : Phase → Run E H → Phase
  phase_from φ [] = φ
  phase_from φ ((c, r) ∷ t) = phase_from (next φ c r) t

  pub phase_from-snoc :
      (φ : Phase) (t : Run E H) (c : Call E H) (r : Reply c)
      → phase_from φ (t ++ (c, r) ∷ []) ≡ next (phase_from φ t) c r
  phase_from-snoc φ [] c r = refl
  phase_from-snoc φ ((d, q) ∷ t) c r = phase_from-snoc (next φ d q) t c r

  -- 1 if the worker awaits the handler for this id.
  abbrev pub job_runs : Uuid → Job E H → ℕ
  job_runs u j = if runs_task u j.task then 1 else 0

  abbrev MakesNoCall : Task E H (Unit {0}) → Type 0
  MakesNoCall (ret a) = Unit
  MakesNoCall (call c k) = ⊥

module _ {E H : Type 0} (sdk : Sdk E H) (opts : ProcessingOptions) where
  -- The worker keeps the rules; where its message has no readable metadata, it makes no call.
  abbrev pub Rules : Message H → Result Info String → Phase → Task E H (Unit {0}) → Type 0
  Rules msg (ok info) φ t = Obeys (message_id sdk opts msg info) φ t
  Rules msg (err _) φ t = MakesNoCall t

  abbrev pub JobRules : Job E H → Type 0
  JobRules j = Rules j.msg j.msg.info (phase_from fresh j.calls) j.task

  abbrev holding_at : Uuid → Message H → Result Info String → Phase → ℕ
  holding_at u msg (ok info) φ = hold u (message_id sdk opts msg info) φ
  holding_at u msg (err _) φ = 0

  abbrev pub job_holds : Uuid → Job E H → ℕ
  job_holds u j = holding_at u j.msg j.msg.info (phase_from fresh j.calls)

  process_message-Rules :
      (msg : Message H) (i : Result Info String)
      → msg.info ≡ i
      → Rules msg i fresh (process_message sdk opts msg)
  unfolding process_message
  process_message-Rules msg (ok info) e = process_message-Obeys sdk opts msg info e
  process_message-Rules msg (err x) e = ground (arith, e)

  -- One call of a worker keeps the budget.
  call_step :
      (msg : Message H) (i : Result Info String) (φ : Phase) (c : Call E H)
      (k : Reply c → Task E H (Unit {0})) (r : Reply c) (marks marks' : Marks)
      → Rules msg i φ (call c k)
      → Serves marks c r marks'
      → Rules msg i (next φ c r) (k r)
        × ((u : Uuid) (rest expired : ℕ)
            → rest + holding_at u msg i φ ≤ present (marks u) + expired
            → rest + holding_at u msg i (next φ c r) + won u (success c r)
              ≤ present (marks' u) + expired)
  call_step msg (ok info) φ c k r marks marks' rules serves =
      (rules.1 r, call_budget (message_id sdk opts msg info) φ c r marks marks' rules.0 serves)
  call_step msg (err x) φ c k r marks marks' rules serves = elim rules [ ]

  runs-le-holds :
      (u : Uuid) (msg : Message H) (i : Result Info String) (φ : Phase) (t : Task E H (Unit {0}))
      → Rules msg i φ t
      → (if runs_task u t then 1 else 0) ≤ holding_at u msg i φ
  runs-le-holds u msg (ok info) φ t rules =
      ground (arith, runs_call-holds u (message_id sdk opts msg info) φ t rules)
  runs-le-holds u msg (err x) φ (ret a) rules = omega arith
  runs-le-holds u msg (err x) φ (call c k) rules = elim rules [ ]

  pub jobs_run-le-hold :
      (u : Uuid) (js : List (Job E H))
      → All JobRules js
      → total (job_runs u) js ≤ total (job_holds u) js
  jobs_run-le-hold u [] rules = omega arith
  jobs_run-le-hold u (j ∷ js) rules = omega (
    arith,
    jobs_run-le-hold u js rules.1,
    runs-le-holds u j.msg j.msg.info (phase_from fresh j.calls) j.task rules.0,
  )

  -- From these workers to those, with these successes of the handler, the rules and the budget of
  -- every id are kept; `rest` counts the claims of others and the successes so far.
  abbrev pub Keeps : Marks → Marks → List (Job E H) → List (Job E H) → List MessageId → Type 0
  Keeps marks marks' jobs jobs' wins =
      All JobRules jobs'
      × ((u : Uuid) (rest expired : ℕ)
          → rest + total (job_holds u) jobs ≤ present (marks u) + expired
          → rest + total (job_holds u) jobs' + won u wins ≤ present (marks' u) + expired)

  -- A worker is gone.
  leaves :
      (before after : List (Job E H)) (j : Job E H) (jobs : List (Job E H)) (marks marks' : Marks)
      → All JobRules jobs
      → jobs ≡ before ++ j ∷ after
      → marks' ≡ marks
      → Keeps marks marks' jobs (before ++ after) []
  leaves before after j jobs marks marks' rules e same = (
    (All-around JobRules before after j (subst (All JobRules) e rules)).1,
    λ u rest expired h. omega (
      arith,
      h,
      ap (total (job_holds u)) e,
      ap (λ (m : Marks). present (m u)) same,
      total-around (job_holds u) before after j,
    ),
  )

  -- Every step of a subscription keeps the rules, and the budget of every id.
  pub system_step :
      {sys sys' : System E H} (st : Step sdk opts sys sys') (marks marks' : Marks)
      → All JobRules sys.jobs
      → Agrees sdk opts Serves marks st marks'
      → Keeps marks marks' sys.jobs sys'.jobs (gained sdk opts st)
  system_step (moves h l o e) marks marks' rules a =
      (rules, λ u rest expired h. ground (arith, h, a))
  system_step (spawns msg l p e) marks marks' rules a =
      ((process_message-Rules msg msg.info refl, rules), λ u rest expired h. ground (arith, h, a))
  system_step {sys} (calls before after msg t c k r e) marks marks' rules a =
      let j : Job E H = record { msg = msg; calls = t; task = call c k } in
      let j2 : Job E H = record { msg = msg; calls = t ++ (c, r) ∷ []; task = k r } in
      let split = All-around JobRules before after j (subst (All JobRules) e rules) in
      let one = call_step msg msg.info (phase_from fresh t) c k r marks marks' split.0 a in
      (
        All-insert JobRules before after j2
            (subst (λ φ. Rules msg msg.info φ (k r)) (sym (phase_from-snoc fresh t c r)) one.0)
            split.1,
        λ u rest expired h. omega (
          arith,
          ap (total (job_holds u)) e,
          total-around (job_holds u) before after j,
          total-around (job_holds u) before after j2,
          ap (holding_at u msg msg.info) (phase_from-snoc fresh t c r),
          one.1 u (rest + total (job_holds u) (before ++ after)) expired (
              omega
                (arith, h, ap (total (job_holds u)) e, total-around (job_holds u) before after j)),
        ),
      )
  system_step {sys} (returns before after msg t x l e w) marks marks' rules a =
      leaves before after (record { msg = msg; calls = t; task = ret x }) sys.jobs marks marks'
        rules e a
  system_step {sys} (panics before after j l e w) marks marks' rules a =
      leaves before after j sys.jobs marks marks' rules e a
