-- ===== src/Deployment/Members.antt =====
-- Each subscription of a deployment runs as it does on its own, so what holds of every reachable state
-- of one subscription holds of each.
use eventbus_rs.Prelude.{subst, All, All-around, All-insert, All-map}
use eventbus_rs.Subscriber.Options.{processing_options}
use eventbus_rs.Subscriber.Message.{Sdk}
use eventbus_rs.Inbox.Interface.{Backend}
use eventbus_rs.Subscription.{Reach}
use eventbus_rs.Subscription
use eventbus_rs.Subscription.Answered.{Answered, returned-Answered}
use eventbus_rs.Deployment.{
  Member, Deployment, DeployStep, subscribes, acts, aborts, expires, DeployReach, start, later,
}

module _ {E H : Type 0} (sdk : Sdk E H) where
  abbrev pub MemberReach : Member E H → Type 0
  MemberReach m = Reach sdk (processing_options m.options) m.options.concurrency m.system

  step-MemberReach :
      {B : Backend} {s t : Deployment B E H}
      → DeployStep sdk B s t
      → All MemberReach s.members
      → All MemberReach t.members
  step-MemberReach (subscribes opts) all = (Subscription.start, all)
  step-MemberReach (acts before after opts sys sys' state' st e agrees) all =
      let split = All-around MemberReach before after _ (subst (All MemberReach) e all) in
      All-insert MemberReach before after _ (Subscription.later split.0 st) split.1
  step-MemberReach (aborts before after m e) all =
      (All-around MemberReach before after m (subst (All MemberReach) e all)).1
  step-MemberReach (expires u state' e) all = all

  pub reach-MemberReach :
      {B : Backend} {initial : B.State} {s : Deployment B E H}
      → DeployReach sdk B initial s
      → All MemberReach s.members
  reach-MemberReach start = tt
  reach-MemberReach (later r st) = step-MemberReach st (reach-MemberReach r)

  -- In any number of subscriptions over one store, started and aborted at any time: every worker that has
  -- returned made no call where the metadata of its message could not be read; else it answered the
  -- delivery once, as the decision table of its subscription says, after all its other calls, and closed
  -- the claim accordingly.
  pub members-Answered :
      {B : Backend} {initial : B.State} {s : Deployment B E H}
      → DeployReach sdk B initial s
      → All
          (λ (m : Member E H). All (Answered sdk (processing_options m.options)) m.system.finished)
          s.members
  members-Answered {s = s} r =
      All-map MemberReach
        (λ (m : Member E H). All (Answered sdk (processing_options m.options)) m.system.finished)
        s.members
        (λ m reached.
          returned-Answered sdk (processing_options m.options) m.options.concurrency reached)
        (reach-MemberReach r)
