-- ===== src/Deployment/NoLoss.antt =====
-- What stands behind an answer that ends the redelivery of a message, over all subscriptions of a deployment.
use eventbus_rs.Prelude.{
  ℕ, ◌+◌, ◌≤◌, ◌≡◌, ◌⊎◌, ap, subst, arith, Bool, true, false, ◌&&◌, ◌==◌, List, [], ◌∷◌, ◌++◌,
  Result, ok, err, String, total, if◌then◌else◌, All, All-around, All-insert, All-map, some, none,
  Option,
}
use eventbus_rs.Core.Error.{HandlerError, BusError}
use eventbus_rs.Core.Id.{Uuid, MessageId}
use eventbus_rs.Core.Idempotency.{Marks, ClaimOutcome, done, already_done, claimed}
use eventbus_rs.Subscriber.Options.{ProcessingOptions, processing_options}
use eventbus_rs.Subscriber.Message.{Message, Info, Sdk, message_id}
use eventbus_rs.Subscriber.Observe.{
  Run, Verdict, nacked, termed, verdicts, claim_reply, handler_replies, confirmed,
}
use eventbus_rs.Subscriber.Outcome.{decision}
use eventbus_rs.Subscription.Answered.{Answers, Answered}
use eventbus_rs.Fleet.Budget.{won}
use eventbus_rs.Fleet.Accounts.{Accounted, any_ok}
use eventbus_rs.Inbox.Interface.{Backend, IdempotencyStore}
use eventbus_rs.Deployment.{
  Member, Deployment, gained, resigned, DeployStep, subscribes, acts, aborts, expires, DeployReach,
  start, later,
}
use eventbus_rs.Deployment.Exclusion.{MemberRules, Inv, reach-Inv, Agrees-view}
use eventbus_rs.Deployment.Members.{members-Answered}
use eventbus_rs.Deployment.Letters.{given_up-buried}
use eventbus_rs.Deployment.Accounts.{FactsAt, RunFacts, SystemFacts, SystemFacts-grow, system_step}

-- JetStream is told to deliver the message no more: an acknowledgement or a termination.
abbrev has_end : List Verdict → Bool
has_end [] = false
has_end (nacked _ ∷ vs) = has_end vs
has_end (_ ∷ vs) = true

module _ {E H : Type 0} (sdk : Sdk E H) (u : Uuid) where
  -- 1 if this run has answered so for a message of the id.
  abbrev ends_at : ProcessingOptions → Message H → Result Info String → Run E H → ℕ
  ends_at opts msg (ok info) t =
      if (message_id sdk opts msg info).uuid == u && has_end (verdicts t) then 1 else 0
  ends_at opts msg (err _) t = 0

  abbrev run_ends : ProcessingOptions → Message H × Run E H → ℕ
  run_ends opts w = ends_at opts w.0 w.0.info w.1

  abbrev member_ends : Member E H → ℕ
  member_ends m = total (run_ends (processing_options m.options)) m.system.finished

-- The workers that have acknowledged or terminated a message of this id and returned.
abbrev pub ended_for : {B : Backend} {E H : Type 0} → Sdk E H → Uuid → Deployment B E H → ℕ
ended_for sdk u s = total (member_ends sdk u) s.members

-- An answer ends the redelivery where the id was done already or its handler has succeeded, or it is a
-- termination.
decision-ends :
    {E : Type 0} (opts : ProcessingOptions) (info : Info) (safe : Bool)
    (claim : Option (Result ClaimOutcome BusError)) (decoded : Result E String)
    (replies : List (Result (Unit {0}) HandlerError))
    → has_end (decision opts info safe claim decoded replies) ≡ true
    → (claim ≡ some (ok already_done))
      ⊎ ((any_ok replies ≡ true)
          ⊎ ((claim ≡ some (ok claimed))
              × (decision opts info safe claim decoded replies ≡ termed ∷ [])))
decision-ends opts info safe none decoded replies e = ground (arith, e)
decision-ends opts info safe (some x) decoded replies e = ground (arith, e)

-- What each of them says holds where one of them counts.
one_of :
    {A : Type 0} (f : A → ℕ) (n : ℕ) (xs : List A)
    → All (λ (x : A). 1 ≤ f x → 1 ≤ n) xs
    → 1 ≤ total f xs
    → 1 ≤ n
one_of f n [] all e = omega (arith, e)
one_of f n (x ∷ xs) all e = ground (arith, e, all.0, one_of f n xs all.1)

module _ {E H : Type 0} (sdk : Sdk E H) (u : Uuid) where
  run-accounts :
      (opts : ProcessingOptions) (ss ds : List MessageId) (msg : Message H) (i : Result Info String)
      (t : Run E H)
      → Answers sdk opts msg i t
      → FactsAt u sdk opts ss ds msg i t
      → 1 ≤ ends_at sdk u opts msg i t
      → 1 ≤ won u ss + won u ds
  run-accounts opts ss ds msg (err x) t a f e = omega (arith, e)
  run-accounts opts ss ds msg (ok info) t a f e = ground (
    arith,
    e,
    f.succeeded,
    f.found_done,
    f.given_up,
    a.2,
    a.3,
    ap has_end a.2,
    decision-ends opts info (confirmed t) (claim_reply t) (sdk.from_slice msg.payload)
        (handler_replies t),
  )

  module _ (opts : ProcessingOptions) (ss ds : List MessageId) where
    runs-account :
        (ws : List (Message H × Run E H))
        → All (λ (w : Message H × Run E H). Answers sdk opts w.0 w.0.info w.1) ws
        → All (RunFacts u sdk opts ss ds) ws
        → All (λ (w : Message H × Run E H). 1 ≤ run_ends sdk u opts w → 1 ≤ won u ss + won u ds) ws
    runs-account [] a f = tt
    runs-account (w ∷ ws) a f =
        (run-accounts opts ss ds w.0 w.0.info w.1 a.0 f.0, runs-account ws a.1 f.1)

  abbrev MemberFacts : List MessageId → List MessageId → Member E H → Type 0
  MemberFacts ss ds m = SystemFacts u sdk (processing_options m.options) ss ds m.system

  members-account :
      (ss ds : List MessageId) (ms : List (Member E H))
      → All
          (λ (m : Member E H). All (Answered sdk (processing_options m.options)) m.system.finished)
          ms
      → All (MemberFacts ss ds) ms
      → All (λ (m : Member E H). 1 ≤ member_ends sdk u m → 1 ≤ won u ss + won u ds) ms
  members-account ss ds [] a f = tt
  members-account ss ds (m ∷ ms) a f = (
    one_of (run_ends sdk u (processing_options m.options)) (won u ss + won u ds) m.system.finished
        (runs-account (processing_options m.options) ss ds m.system.finished a.0 f.0.1),
    members-account ss ds ms a.1 f.1,
  )

  module _ (B : Backend) (view : B.State → Marks) (store : IdempotencyStore B view) where
    record Accounts (s : Deployment B E H) : Type 0 where
      marked : Accounted u s.successes s.dismissals (view s.state)
      runs : All (MemberFacts s.successes s.dismissals) s.members

    step-Accounts :
        {s t : Deployment B E H}
        → DeployStep sdk B s t
        → Inv B sdk view store s
        → Accounts s
        → Accounts t
    step-Accounts (subscribes opts) inv acc = record {
      marked = acc.marked;
      runs = ((tt, tt), acc.runs);
    }
    step-Accounts {s} (acts before after opts sys sys' state' st e agrees) inv acc =
        let old : Member E H = record { options = opts; system = sys } in
        let new : Member E H = record { options = opts; system = sys' } in
        let p = processing_options opts in
        let ws = gained sdk p st in
        let es = resigned sdk p st in
        let ss = s.successes in
        let ds = s.dismissals in
        let rules =
          All-around (MemberRules B sdk view store) before after old
            (subst (All (MemberRules B sdk view store)) e inv.rules) in
        let split =
          All-around (MemberFacts ss ds) before after old
            (subst (All (MemberFacts ss ds)) e acc.runs) in
        let kept =
          system_step u sdk p st (view s.state) (view state') ss ds rules.0
            (Agrees-view B sdk view store p st s.state state' agrees) acc.marked split.0 in
        record {
          marked = kept.0;
          runs = All-insert (MemberFacts (ws ++ ss) (es ++ ds)) before after new kept.1 (
              All-map (MemberFacts ss ds) (MemberFacts (ws ++ ss) (es ++ ds)) (before ++ after)
                (λ m. SystemFacts-grow u sdk (processing_options m.options) ws es ss ds m.system)
                split.1);
        }
    step-Accounts {s} (aborts before after m e) inv acc = record {
      marked = acc.marked;
      runs =
          (All-around (MemberFacts s.successes s.dismissals) before after m
            (subst (All (MemberFacts s.successes s.dismissals)) e acc.runs)).1;
    }
    step-Accounts {s} (expires v state' e) inv acc = record {
      marked = λ h.
          ground
            (arith, h, acc.marked, ap (λ (m : Marks). m u) (store.view-expire v s.state state' e));
      runs = acc.runs;
    }

    reach-Accounts :
        {initial : B.State} {s : Deployment B E H}
        → ¬ (view initial u ≡ some done)
        → DeployReach sdk B initial s
        → Accounts s
    reach-Accounts fresh start = record { marked = λ h. elim (fresh h) [ ]; runs = tt }
    reach-Accounts fresh (later r st) =
        step-Accounts st (reach-Inv B sdk view store r) (reach-Accounts fresh r)

    -- Any number of subscriptions over one store that keeps the trait's promise, each started with a DLQ,
    -- from contents where this message id is not marked done; whatever the scheduler, the servers, the
    -- store and the handlers do, with workers that panic, subscriptions that are aborted and replies that
    -- get lost: where a worker of a subscription that has not been aborted has acknowledged or terminated
    -- a message of the id and returned, a handler has succeeded for the id, or a worker has marked it done after
    -- JetStream confirmed its dead letter to that worker.
    pub ended_handled_or_buried :
        {initial : B.State} {s : Deployment B E H}
        → DeployReach sdk B initial s
        → s.unguarded ≡ 0
        → ¬ (view initial u ≡ some done)
        → 1 ≤ ended_for sdk u s
        → 1 ≤ won u s.successes + won u s.buried
    ended_handled_or_buried {s = s} r guarded fresh e =
        let counted =
          one_of (member_ends sdk u) (won u s.successes + won u s.dismissals) s.members
            (members-account s.successes s.dismissals s.members (members-Answered sdk r)
              (reach-Accounts fresh r).runs)
            e in
        omega (arith, counted, given_up-buried sdk r guarded u)
