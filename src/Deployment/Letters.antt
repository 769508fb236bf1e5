-- ===== src/Deployment/Letters.antt =====
-- Subscriptions with a DLQ: a worker gives a message up only when JetStream has confirmed its dead letter.
use eventbus_rs.Prelude.{
  ◌≤◌, ◌≡◌, refl, sym, subst, arith, Bool, true, false, ◌||◌, [], ◌∷◌, ◌++◌, Result, ok, err,
  String, All, All-around, All-insert, some, none, Option,
}
use eventbus_rs.Core.Id.{Uuid}
use eventbus_rs.Effect.{ret, call}
use eventbus_rs.Calls.{Call, Reply, Task, mark_done}
use eventbus_rs.Subscriber.Options.{ProcessingOptions, SubscribeOptions, processing_options}
use eventbus_rs.Dlq.Config.{DlqOptions}
use eventbus_rs.Subscriber.Message.{Message, Info, Sdk}
use eventbus_rs.Subscriber.Observe.{Run, handler_replies, confirms, confirmed}
use eventbus_rs.Subscriber.Process.{process_message}
use eventbus_rs.Subscription.{Job, System, Step, moves, spawns, calls, returns, panics}
use eventbus_rs.Fleet.Budget.{won}
use eventbus_rs.Fleet.Accounts.{any_ok, any_ok-snoc, won-append}
use eventbus_rs.Inbox.Interface.{Backend}
use eventbus_rs.Deployment.{
  Member, Deployment, resigned, interred, dismissal_at, burial_at, without_dlq, DeployStep,
  subscribes, acts, aborts, expires, DeployReach, start, later,
}

module _ {E H : Type 0} where
  -- The handler has succeeded in this run, or JetStream has confirmed a publish.
  abbrev settled_in : Run E H → Bool
  settled_in t = any_ok (handler_replies t) || confirmed t

  confirmed-snoc :
      (t : Run E H) (c : Call E H) (r : Reply c)
      → confirmed (t ++ (c, r) ∷ []) ≡ (confirmed t || confirms c r)
  confirmed-snoc [] c r = ground arith
  confirmed-snoc ((d, q) ∷ t) c r = ground (arith, confirmed-snoc t c r)

  settled_in-snoc :
      (t : Run E H) (c : Call E H) (r : Reply c)
      → settled_in (t ++ (c, r) ∷ []) ≡ (settled_in t || settled_in ((c, r) ∷ []))
  settled_in-snoc t c r = ground (arith, any_ok-snoc t c r, confirmed-snoc t c r)

  abbrev may_call : Bool → Call E H → Bool
  may_call settled (mark_done k) = settled
  may_call settled c = true

  -- The task marks no id done before its message is settled.
  abbrev Settles : Bool → Task E H (Unit {0}) → Type 0
  Settles settled (ret a) = Unit
  Settles settled (call c k) =
      (may_call settled c ≡ true)
      × ((r : Reply c) → Settles (settled || settled_in ((c, r) ∷ [])) (k r))

  abbrev JobSettles : Job E H → Type 0
  JobSettles j = Settles (settled_in j.calls) j.task

module _ {E H : Type 0} (sdk : Sdk E H) (opts : ProcessingOptions) where
  process_message-Settles :
      (msg : Message H) (dlq : DlqOptions)
      → opts.dlq_opts ≡ some dlq
      → Settles false (process_message sdk opts msg)
  unfolding process_message
  process_message-Settles msg dlq e = ground (arith, e)

  dismissal-buried :
      (u : Uuid) (msg : Message H) (i : Result Info String) (t : Run E H) (c : Call E H)
      → may_call (settled_in t) c ≡ true
      → won u (dismissal_at sdk opts msg i t c) ≤ won u (burial_at sdk opts msg i t c)
  dismissal-buried u msg (err x) t c e = omega arith
  dismissal-buried u msg (ok info) t (mark_done k) e = ground (arith, e)
  dismissal-buried u msg (ok info) t c e = ground arith

  -- Every step keeps this of the workers, and buries what it gives up.
  system_step :
      (dlq : DlqOptions)
      → opts.dlq_opts ≡ some dlq
      → {sys sys' : System E H} (st : Step sdk opts sys sys') → All JobSettles sys.jobs
      → All JobSettles sys'.jobs
        × ((u : Uuid) → won u (resigned sdk opts st) ≤ won u (interred sdk opts st))
  system_step dlq g (moves h l o e) all = (all, λ u. omega arith)
  system_step dlq g (spawns msg l p e) all =
      ((process_message-Settles msg dlq g, all), λ u. omega arith)
  system_step dlq g (calls before after msg t c k r e) all =
      let j : Job E H = record { msg = msg; calls = t; task = call c k } in
      let j2 : Job E H = record { msg = msg; calls = t ++ (c, r) ∷ []; task = k r } in
      let split = All-around JobSettles before after j (subst (All JobSettles) e all) in
      (
        All-insert JobSettles before after j2
            (subst (λ b. Settles b (k r)) (sym (settled_in-snoc t c r)) (split.0.1 r)) split.1,
        λ u. dismissal-buried u msg msg.info t c split.0.0,
      )
  system_step dlq g (returns before after msg t x l e w) all = (
    (All-around JobSettles before after (record { msg = msg; calls = t; task = ret x })
        (subst (All JobSettles) e all)).1,
    λ u. omega arith,
  )
  system_step dlq g (panics before after j l e w) all =
      ((All-around JobSettles before after j (subst (All JobSettles) e all)).1, λ u. omega arith)

has_dlq : (d : Option DlqOptions) → without_dlq d ≡ 0 → (dlq : DlqOptions) × (d ≡ some dlq)
has_dlq none e = ground (arith, e)
has_dlq (some dlq) e = (dlq, refl)

guards :
    (opts : SubscribeOptions)
    → without_dlq opts.dlq ≡ 0
    → (dlq : DlqOptions) × ((processing_options opts).dlq_opts ≡ some dlq)
unfolding processing_options
guards opts e = has_dlq opts.dlq e

module _ {E H : Type 0} where
  abbrev Guarded : Member E H → Type 0
  Guarded m =
      ((dlq : DlqOptions) × ((processing_options m.options).dlq_opts ≡ some dlq))
      × All JobSettles m.system.jobs

module _ {B : Backend} {E H : Type 0} (sdk : Sdk E H) where
  record Buries (s : Deployment B E H) : Type 0 where
    guarded : All Guarded s.members
    backed : (u : Uuid) → won u s.dismissals ≤ won u s.buried

  step-Buries :
      {s t : Deployment B E H}
      → DeployStep sdk B s t
      → (s.unguarded ≡ 0 → Buries s)
      → t.unguarded ≡ 0
      → Buries t
  step-Buries {s} (subscribes opts) inv z =
      let b = inv (omega (arith, z)) in
      record { guarded = ((guards opts (omega (arith, z)), tt), b.guarded); backed = b.backed }
  step-Buries {s} (acts before after opts sys sys' state' st e agrees) inv z =
      let b = inv z in
      let p = processing_options opts in
      let old : Member E H = record { options = opts; system = sys } in
      let new : Member E H = record { options = opts; system = sys' } in
      let split = All-around Guarded before after old (subst (All Guarded) e b.guarded) in
      let kept = system_step sdk p split.0.0.0 split.0.0.1 st split.0.1 in
      record {
        guarded = All-insert Guarded before after new (split.0.0, kept.0) split.1;
        backed = λ u. omega (
          arith,
          kept.1 u,
          b.backed u,
          won-append u (resigned sdk p st) s.dismissals,
          won-append u (interred sdk p st) s.buried,
        );
      }
  step-Buries {s} (aborts before after m e) inv z =
      let b = inv z in
      record {
        guarded = (All-around Guarded before after m (subst (All Guarded) e b.guarded)).1;
        backed = b.backed;
      }
  step-Buries (expires v state' e) inv z =
      let b = inv z in record { guarded = b.guarded; backed = b.backed }

  reach-Buries :
      {initial : B.State} {s : Deployment B E H}
      → DeployReach sdk B initial s
      → s.unguarded ≡ 0
      → Buries s
  reach-Buries start z = record { guarded = tt; backed = λ u. omega arith }
  reach-Buries (later r st) z = step-Buries st (reach-Buries r) z

  -- Where every subscription has been given a DLQ, what the workers give up is buried.
  pub given_up-buried :
      {initial : B.State} {s : Deployment B E H}
      → DeployReach sdk B initial s
      → s.unguarded ≡ 0
      → (u : Uuid) → won u s.dismissals ≤ won u s.buried
  given_up-buried r z u = (reach-Buries r z).backed u
