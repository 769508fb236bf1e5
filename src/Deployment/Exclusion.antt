-- ===== src/Deployment/Exclusion.antt =====
-- The handlers of all subscriptions over one store: their runs for one message id exclude one another.
use eventbus_rs.Prelude.{
  ℕ, ◌+◌, ◌≤◌, ap, subst, arith, List, [], ◌∷◌, ◌++◌, total, total-around, count-append, ◌==◌, All,
  All-around, All-insert,
}
use eventbus_rs.Core.Id.{Uuid, MessageId}
use eventbus_rs.Core.Idempotency.{Marks, present}
use eventbus_rs.Subscriber.Options.{ProcessingOptions, processing_options}
use eventbus_rs.Subscriber.Message.{Sdk}
use eventbus_rs.Subscription.{System, Step, moves, spawns, calls, returns, panics}
use eventbus_rs.Fleet.Budget.{won}
use eventbus_rs.Fleet.System.{Serves}
use eventbus_rs.Fleet.Backed.{Performs, Performs-Serves}
use eventbus_rs.Inbox.Interface.{Backend, IdempotencyStore}
use eventbus_rs.Deployment.{
  Member, Deployment, Agrees, gained, DeployStep, subscribes, acts, aborts, expires, DeployReach,
  start, later,
}
use eventbus_rs.Deployment.Rules.{JobRules, job_holds, job_runs, jobs_run-le-hold, system_step}

module _ {E H : Type 0} where
  -- The workers of a subscription that await the handler for this id.
  abbrev pub member_runs : Uuid → Member E H → ℕ
  member_runs u m = total (job_runs u) m.system.jobs

module _ {B : Backend} {E H : Type 0} where
  abbrev pub handling : Uuid → Deployment B E H → ℕ
  handling u s = total (member_runs u) s.members

module _ (B : Backend) {E H : Type 0} (sdk : Sdk E H) (view : B.State → Marks)
    (store : IdempotencyStore B view) where
  -- A step that agrees with the backend agrees with the promise, on the marks of its states.
  pub Agrees-view :
      (opts : ProcessingOptions) {sys sys' : System E H} (st : Step sdk opts sys sys')
      (s s' : B.State)
      → Agrees sdk opts (Performs B) s st s'
      → Agrees sdk opts Serves (view s) st (view s')
  Agrees-view opts (moves h l o e) s s' a = ap view a
  Agrees-view opts (spawns msg l p e) s s' a = ap view a
  Agrees-view opts (calls before after msg t c k r e) s s' a =
      Performs-Serves B sdk view store s s' c r a
  Agrees-view opts (returns before after msg t x l e w) s s' a = ap view a
  Agrees-view opts (panics before after j l e w) s s' a = ap view a

  abbrev pub MemberRules : Member E H → Type 0
  MemberRules m = All (JobRules sdk (processing_options m.options)) m.system.jobs

  abbrev member_holds : Uuid → Member E H → ℕ
  member_holds u m = total (job_holds sdk (processing_options m.options) u) m.system.jobs

  pub record Inv (s : Deployment B E H) : Type 0 where
    pub rules : All MemberRules s.members
    pub budget :
        (u : Uuid)
        → total (member_holds u) s.members + won u s.successes
          ≤ present (view s.state u) + won u s.expirations

  step-Inv : {s t : Deployment B E H} → DeployStep sdk B s t → Inv s → Inv t
  step-Inv (subscribes opts) inv = record {
    rules = (tt, inv.rules);
    budget = λ u. ground (arith, inv.budget u);
  }
  step-Inv {s} (acts before after opts sys sys' state' st e agrees) inv =
      let old : Member E H = record { options = opts; system = sys } in
      let new : Member E H = record { options = opts; system = sys' } in
      let split = All-around MemberRules before after old (subst (All MemberRules) e inv.rules) in
      let kept =
        system_step sdk (processing_options opts) st (view s.state) (view state') split.0
          (Agrees-view (processing_options opts) st s.state state' agrees) in
      record {
        rules = All-insert MemberRules before after new kept.0 split.1;
        budget = λ u. omega (
          arith,
          inv.budget u,
          ap (total (member_holds u)) e,
          total-around (member_holds u) before after old,
          total-around (member_holds u) before after new,
          count-append (λ (i : MessageId). i.uuid == u) (gained sdk (processing_options opts) st)
              s.successes,
          kept.1 u (total (member_holds u) (before ++ after) + won u s.successes)
              (won u s.expirations),
        );
      }
  step-Inv {s} (aborts before after m e) inv = record {
    rules = (All-around MemberRules before after m (subst (All MemberRules) e inv.rules)).1;
    budget = λ u. omega (
      arith,
      inv.budget u,
      ap (total (member_holds u)) e,
      total-around (member_holds u) before after m,
    );
  }
  step-Inv {s} (expires v state' e) inv = record {
    rules = inv.rules;
    budget = λ u. ground (
      arith,
      inv.budget u,
      ap (λ (m : Marks). present (m u)) (store.view-expire v s.state state' e),
    );
  }

  pub reach-Inv : {initial : B.State} {s : Deployment B E H} → DeployReach sdk B initial s → Inv s
  reach-Inv start = record { rules = tt; budget = λ u. omega arith }
  reach-Inv (later r st) = step-Inv st (reach-Inv r)

  runs-le-holds :
      (u : Uuid) (ms : List (Member E H))
      → All MemberRules ms
      → total (member_runs u) ms ≤ total (member_holds u) ms
  runs-le-holds u [] rules = omega arith
  runs-le-holds u (m ∷ ms) rules = omega (
    arith,
    jobs_run-le-hold sdk (processing_options m.options) u m.system.jobs rules.0,
    runs-le-holds u ms rules.1,
  )

  -- Any number of subscriptions over one store that keeps the trait's promise, each with its own options,
  -- its task and its workers, started and aborted at any time; whatever the scheduler, the servers, the
  -- store and the handlers do, with workers that panic and replies that get lost: for each message id,
  -- the workers that are in a handler and the successes of the handlers are together at most one more
  -- than the times that its key has expired.
  pub deployment_exclusive :
      {initial : B.State} {s : Deployment B E H}
      → DeployReach sdk B initial s
      → (u : Uuid) → handling u s + won u s.successes ≤ 1 + won u s.expirations
  deployment_exclusive {s = s} r u =
      let inv = reach-Inv r in ground (arith, runs-le-holds u s.members inv.rules, inv.budget u)
