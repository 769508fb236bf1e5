-- ===== src/Fleet/Backed.antt =====
-- The workers over a concrete store: each call of the store is one atomic operation of the backend.
-- With an implementation of the interface, every state is one of the abstract fleet.
use eventbus_rs.Prelude.{◌≡◌, ◌+◌, ◌≤◌, ap, sym, subst, List, [], ◌∷◌, ◌++◌, ok}
use eventbus_rs.Core.Id.{Uuid, MessageId, from_uuid}
use eventbus_rs.Core.Idempotency.{Marks}
use eventbus_rs.Effect.{call}
use eventbus_rs.Calls.{Call, Reply, Task, try_claim, mark_done, release}
use eventbus_rs.Inbox.Interface.{Backend, IdempotencyStore}
use eventbus_rs.Subscriber.Options.{ProcessingOptions}
use eventbus_rs.Subscriber.Message.{Message, Info, Sdk}
use eventbus_rs.Subscriber.Discipline.{Phase, next}
use eventbus_rs.Fleet.System.{Worker, Fleet, Serves, success, spawn, Step, Reach}
use eventbus_rs.Fleet.System
use eventbus_rs.Fleet.Budget.{won}
use eventbus_rs.Fleet.Exclusion.{running, handler_exclusive}

module _ (B : Backend) {E H : Type 0} where
  -- What a call does to the backend, given its reply.
  abbrev pub Performs : B.State → (c : Call E H) → Reply c → B.State → Type 0
  Performs s (try_claim k) r s' = B.try_claim s k r s'
  Performs s (mark_done k) r s' = B.mark_done s k r s'
  Performs s (release k) r s' = B.release s k r s'
  Performs s _ r s' = s' ≡ s

module _ (B : Backend) (E H : Type 0) where
  pub record BackedFleet : Type 0 where
    pub state : B.State
    pub workers : List (Worker E H)
    pub successes : List MessageId
    pub expirations : List MessageId

module _ (B : Backend) {E H : Type 0} (sdk : Sdk E H) where
  pub data BackedStep (s : BackedFleet B E H) : BackedFleet B E H → Type 0 where
    deliver :
        (opts : ProcessingOptions) (msg : Message H) (info : Info)
        → msg.info ≡ ok info
        → BackedStep s (record s { workers = spawn sdk opts msg info ∷ s.workers })
    reply :
        (before after : List (Worker E H)) (id : MessageId) (φ : Phase) (c : Call E H)
        (k : Reply c → Task E H (Unit {0})) (r : Reply c) (state' : B.State)
        → s.workers ≡ before ++ record { id = id; phase = φ; task = call c k } ∷ after
        → Performs B s.state c r state'
        → BackedStep s (record {
          state = state';
          workers = before ++ record { id = id; phase = next φ c r; task = k r } ∷ after;
          successes = success c r ++ s.successes;
          expirations = s.expirations;
        })
    stop :
        (before after : List (Worker E H)) (w : Worker E H)
        → s.workers ≡ before ++ w ∷ after
        → BackedStep s (record s { workers = before ++ after })
    expire :
        (u : Uuid) (state' : B.State)
        → B.expire s.state u state'
        → BackedStep s (record s { state = state'; expirations = from_uuid u ∷ s.expirations })

  pub data BackedReach : BackedFleet B E H → Type 0 where
    start :
        (state : B.State)
        → BackedReach (record { state = state; workers = []; successes = []; expirations = [] })
    later : {s t : BackedFleet B E H} → BackedReach s → BackedStep s t → BackedReach t

  module _ (view : B.State → Marks) (store : IdempotencyStore B view) where
    abbrev pub abstract_of : BackedFleet B E H → Fleet E H
    abstract_of s = record {
      marks = view s.state;
      workers = s.workers;
      successes = s.successes;
      expirations = s.expirations;
    }

    pub Performs-Serves :
        (s s' : B.State) (c : Call E H) (r : Reply c)
        → Performs B s c r s'
        → Serves (view s) c r (view s')
    Performs-Serves s s' (try_claim k) r p = store.try_claim-Claims k s s' r p
    Performs-Serves s s' (mark_done k) r p = store.mark_done-MarksDone k s s' r p
    Performs-Serves s s' (release k) r p = store.release-Releases k s s' r p
    Performs-Serves s s' c r p = ap view p

    BackedStep-Step :
        {s t : BackedFleet B E H} → BackedStep s t → Step sdk (abstract_of s) (abstract_of t)
    BackedStep-Step (deliver opts msg info known) = System.deliver opts msg info known
    BackedStep-Step {s} (reply before after id φ c k r state' e p) =
        System.reply before after id φ c k r (view state') e (Performs-Serves s.state state' c r p)
    BackedStep-Step (stop before after w e) = System.stop before after w e
    BackedStep-Step {s} (expire u state' e) =
        subst
          (λ m.
            Step sdk (abstract_of s)
              (record (abstract_of s) { marks = m; expirations = from_uuid u ∷ s.expirations }))
          (sym (store.view-expire u s.state state' e)) (System.expire u)

    -- The workers over a backend that keeps the trait's promise refine the abstract fleet: every state
    -- that they reach, seen through the marks that the backend stands for, is one that the fleet
    -- reaches.
    pub BackedReach-Reach : {s : BackedFleet B E H} → BackedReach s → Reach sdk (abstract_of s)
    BackedReach-Reach (start state) = System.start (view state)
    BackedReach-Reach (later r st) = System.later (BackedReach-Reach r) (BackedStep-Step st)

    -- The bound on the handler's runs, over any store that keeps the trait's promise.
    pub backed_exclusive :
        {s : BackedFleet B E H}
        → BackedReach s
        → (u : Uuid) → running u s.workers + won u s.successes ≤ 1 + won u s.expirations
    backed_exclusive r u = handler_exclusive sdk (BackedReach-Reach r) u
