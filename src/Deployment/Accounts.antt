-- ===== src/Deployment/Accounts.antt =====
-- What the runs of the workers say of a message id, and of the logs of a deployment.
use eventbus_rs.Prelude.{
  sym, subst, arith, List, [], ◌∷◌, ◌++◌, Result, ok, err, String, All, All-around, All-insert,
  All-map,
}
use eventbus_rs.Core.Id.{Uuid, MessageId}
use eventbus_rs.Core.Idempotency.{Marks}
use eventbus_rs.Effect.{ret, call}
use eventbus_rs.Calls.{Call, Reply, Task}
use eventbus_rs.Subscriber.Options.{ProcessingOptions}
use eventbus_rs.Subscriber.Message.{Message, Info, Sdk, message_id}
use eventbus_rs.Subscriber.Observe.{Run}
use eventbus_rs.Subscriber.Discipline.{fresh}
use eventbus_rs.Subscription.{Job, System, Step, moves, spawns, calls, returns, panics}
use eventbus_rs.Fleet.System.{success, Serves}
use eventbus_rs.Fleet.Accounts.{Accounted, Facts, call-Accounted, call-Facts, won-append}
use eventbus_rs.Deployment.{Agrees, gained, resigned, dismissal_at}
use eventbus_rs.Deployment.Rules.{JobRules, Rules, phase_from}

module _ (u : Uuid) {E H : Type 0} (sdk : Sdk E H) (opts : ProcessingOptions) where
  -- What a run says of these logs, by the id of its message.
  abbrev pub FactsAt :
      List MessageId → List MessageId → Message H → Result Info String → Run E H → Type 0
  FactsAt ss ds msg (ok info) t = Facts u ss ds (message_id sdk opts msg info) t
  FactsAt ss ds msg (err _) t = Unit

  abbrev JobFacts : List MessageId → List MessageId → Job E H → Type 0
  JobFacts ss ds j = FactsAt ss ds j.msg j.msg.info j.calls

  abbrev pub RunFacts : List MessageId → List MessageId → Message H × Run E H → Type 0
  RunFacts ss ds w = FactsAt ss ds w.0 w.0.info w.1

  abbrev pub SystemFacts : List MessageId → List MessageId → System E H → Type 0
  SystemFacts ss ds sys = All (JobFacts ss ds) sys.jobs × All (RunFacts ss ds) sys.finished

  module _ (ws es ss ds : List MessageId) where
    FactsAt-grow :
        (msg : Message H) (i : Result Info String) (t : Run E H)
        → FactsAt ss ds msg i t
        → FactsAt (ws ++ ss) (es ++ ds) msg i t
    FactsAt-grow msg (err x) t f = tt
    FactsAt-grow msg (ok info) t f = record {
      succeeded = λ same won_it. omega (arith, f.succeeded same won_it, won-append u ws ss);
      found_done = λ same found.
          omega (arith, f.found_done same found, won-append u ws ss, won-append u es ds);
      given_up = λ same m. omega (arith, f.given_up same m, won-append u ws ss, won-append u es ds);
    }

    pub SystemFacts-grow :
        (sys : System E H) → SystemFacts ss ds sys → SystemFacts (ws ++ ss) (es ++ ds) sys
    SystemFacts-grow sys f = (
      All-map (JobFacts ss ds) (JobFacts (ws ++ ss) (es ++ ds)) sys.jobs
          (λ j. FactsAt-grow j.msg j.msg.info j.calls) f.0,
      All-map (RunFacts ss ds) (RunFacts (ws ++ ss) (es ++ ds)) sys.finished
          (λ w. FactsAt-grow w.0 w.0.info w.1) f.1,
    )

  FactsAt-nil :
      (ss ds : List MessageId) (msg : Message H) (i : Result Info String) → FactsAt ss ds msg i []
  FactsAt-nil ss ds msg (err x) = tt
  FactsAt-nil ss ds msg (ok info) = record {
    succeeded = λ same won_it. ground (arith, won_it);
    found_done = λ same found. ground (arith, found);
    given_up = λ same m. ground (arith, m);
  }

  -- One call of a worker.
  call_step :
      (msg : Message H) (i : Result Info String) (t : Run E H) (c : Call E H)
      (k : Reply c → Task E H (Unit {0})) (r : Reply c) (marks marks' : Marks)
      (ss ds : List MessageId)
      → Rules sdk opts msg i (phase_from fresh t) (call c k)
      → Serves marks c r marks'
      → Accounted u ss ds marks
      → FactsAt ss ds msg i t
      → Accounted u (success c r ++ ss) (dismissal_at sdk opts msg i t c ++ ds) marks'
        × FactsAt
            (success c r ++ ss)
            (dismissal_at sdk opts msg i t c ++ ds)
            msg
            i
            (t ++ (c, r) ∷ [])
  call_step msg (ok info) t c k r marks marks' ss ds rules serves accounted facts =
      let id = message_id sdk opts msg info in
      let φ = phase_from fresh t in
      (
        call-Accounted u id φ t c r marks marks' ss ds rules.0 serves accounted facts,
        call-Facts u id φ t c r marks marks' ss ds rules.0 serves accounted facts,
      )
  call_step msg (err x) t c k r marks marks' ss ds rules serves accounted facts = elim rules [ ]

  -- Every step of a subscription keeps the account of the id, and what its runs say of it.
  pub system_step :
      {sys sys' : System E H} (st : Step sdk opts sys sys') (marks marks' : Marks)
      (ss ds : List MessageId)
      → All (JobRules sdk opts) sys.jobs
      → Agrees sdk opts Serves marks st marks'
      → Accounted u ss ds marks
      → SystemFacts ss ds sys
      → Accounted u (gained sdk opts st ++ ss) (resigned sdk opts st ++ ds) marks'
        × SystemFacts (gained sdk opts st ++ ss) (resigned sdk opts st ++ ds) sys'
  system_step (moves h l o e) marks marks' ss ds rules a acc f =
      (subst (Accounted u ss ds) (sym a) acc, f)
  system_step (spawns msg l p e) marks marks' ss ds rules a acc f =
      (subst (Accounted u ss ds) (sym a) acc, ((FactsAt-nil ss ds msg msg.info, f.0), f.1))
  system_step {sys} (calls before after msg t c k r e) marks marks' ss ds rules a acc f =
      let j : Job E H = record { msg = msg; calls = t; task = call c k } in
      let j2 : Job E H = record { msg = msg; calls = t ++ (c, r) ∷ []; task = k r } in
      let ws = success c r in
      let es = dismissal_at sdk opts msg msg.info t c in
      let rule =
        (All-around (JobRules sdk opts) before after j
          (subst (All (JobRules sdk opts)) e rules)).0 in
      let was =
        (All-around (JobFacts ss ds) before after j (subst (All (JobFacts ss ds)) e f.0)).0 in
      let grown = SystemFacts-grow ws es ss ds sys f in
      let others =
        (All-around (JobFacts (ws ++ ss) (es ++ ds)) before after j
          (subst (All (JobFacts (ws ++ ss) (es ++ ds))) e grown.0)).1 in
      let one = call_step msg msg.info t c k r marks marks' ss ds rule a acc was in
      (one.0, (All-insert (JobFacts (ws ++ ss) (es ++ ds)) before after j2 one.1 others, grown.1))
  system_step {sys} (returns before after msg t x l e w) marks marks' ss ds rules a acc f =
      let j : Job E H = record { msg = msg; calls = t; task = ret x } in
      let split = All-around (JobFacts ss ds) before after j (subst (All (JobFacts ss ds)) e f.0) in
      (subst (Accounted u ss ds) (sym a) acc, (split.1, (split.0, f.1)))
  system_step {sys} (panics before after j l e w) marks marks' ss ds rules a acc f =
      let split = All-around (JobFacts ss ds) before after j (subst (All (JobFacts ss ds)) e f.0) in
      (subst (Accounted u ss ds) (sym a) acc, (split.1, f.1))
