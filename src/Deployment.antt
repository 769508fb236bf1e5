-- ===== src/Deployment.antt =====
-- Any number of subscriptions of crates/bus-nats/src/subscriber.rs over one idempotency store, as the
-- `subscribe` of crates/event-bus/src/bus.rs gives them the store of their bus: the tasks, their workers
-- and the store move one step at a time.
pub mod Rules
pub mod Exclusion
pub mod Members
pub mod OverRedis
pub mod Letters
pub mod Accounts
pub mod NoLoss
mod Examples
use eventbus_rs.Prelude.{
  ◌≡◌, String, Result, ok, err, List, [], ◌∷◌, ◌++◌, ℕ, ◌+◌, Option, none, some, if◌then◌else◌,
}
use eventbus_rs.Dlq.Config.{DlqOptions}
use eventbus_rs.Core.Id.{Uuid, MessageId, from_uuid}
use eventbus_rs.Subscriber.Options.{ProcessingOptions, SubscribeOptions, processing_options}
use eventbus_rs.Subscriber.Message.{Message, Info, Sdk, message_id}
use eventbus_rs.Subscriber.Observe.{Run, confirmed}
use eventbus_rs.Fleet.Accounts.{dismissal}
use eventbus_rs.Subscriber.Loop.{init}
use eventbus_rs.Subscription.{System, Step, moves, spawns, calls, returns, panics}
use eventbus_rs.Fleet.System.{success}
use eventbus_rs.Fleet.Backed.{Performs}
use eventbus_rs.Inbox.Interface.{Backend}
use eventbus_rs.Calls.{Call, Reply}

pub record Member (E H : Type 0) : Type 0 where
  pub options : SubscribeOptions
  pub system : System E H

pub record Deployment (B : Backend) (E H : Type 0) : Type 0 where
  pub state : B.State  -- of the store
  pub members : List (Member E H)
  pub successes : List MessageId  -- the ids that a handler has succeeded for, the last one first
  pub dismissals : List MessageId  -- the ids that a worker has given up, the last one first
  pub buried : List MessageId  -- those of them whose dead letter JetStream has confirmed to the worker
  pub expirations : List MessageId  -- the ids whose keys have expired, the last one first
  pub unguarded : ℕ  -- the subscriptions that have been started without a DLQ

module _ {E H : Type 0} (sdk : Sdk E H) (opts : ProcessingOptions) where
  -- A step of a subscription and the store, by what a call does to the store, given its reply.
  abbrev pub Agrees :
      {State : Type 0} {s t : System E H}
      → (State → (c : Call E H) → Reply c → State → Type 0)
      → State
      → Step sdk opts s t
      → State
      → Type 0
  Agrees Does state (calls before after msg t c k r e) state' = Does state c r state'
  Agrees Does state st state' = state' ≡ state

  abbrev pub gained : {s t : System E H} → Step sdk opts s t → List MessageId
  gained (calls before after msg t c k r e) = success c r
  gained st = []

  abbrev pub dismissal_at : Message H → Result Info String → Run E H → Call E H → List MessageId
  dismissal_at msg (ok info) t c = dismissal (message_id sdk opts msg info) t c
  dismissal_at msg (err _) t c = []

  abbrev pub resigned : {s t : System E H} → Step sdk opts s t → List MessageId
  resigned (calls before after msg t c k r e) = dismissal_at msg msg.info t c
  resigned st = []

  abbrev pub burial_at : Message H → Result Info String → Run E H → Call E H → List MessageId
  burial_at msg (ok info) t c =
      if confirmed t then dismissal (message_id sdk opts msg info) t c else []
  burial_at msg (err _) t c = []

  abbrev pub interred : {s t : System E H} → Step sdk opts s t → List MessageId
  interred (calls before after msg t c k r e) = burial_at msg msg.info t c
  interred st = []

abbrev pub without_dlq : Option DlqOptions → ℕ
without_dlq none = 1
without_dlq (some _) = 0

module _ {E H : Type 0} (sdk : Sdk E H) where
  -- A subscription as `spawn_task` starts it.
  abbrev pub subscribed : SubscribeOptions → Member E H
  subscribed opts = record {
    options = opts;
    system = record { loop = init opts.concurrency; jobs = []; finished = []; panicked = [] };
  }

  module _ (B : Backend) where
    pub data DeployStep (s : Deployment B E H) : Deployment B E H → Type 0 where
      subscribes :
          (opts : SubscribeOptions)
          → DeployStep s (record s {
            members = subscribed opts ∷ s.members;
            unguarded = without_dlq opts.dlq + s.unguarded;
          })
      acts :
          (before after : List (Member E H)) (opts : SubscribeOptions) (sys sys' : System E H)
          (state' : B.State) (st : Step sdk (processing_options opts) sys sys')
          → s.members ≡ before ++ record { options = opts; system = sys } ∷ after
          → Agrees sdk (processing_options opts) (Performs B) s.state st state'
          → DeployStep s (record {
            state = state';
            members = before ++ record { options = opts; system = sys' } ∷ after;
            successes = gained sdk (processing_options opts) st ++ s.successes;
            dismissals = resigned sdk (processing_options opts) st ++ s.dismissals;
            buried = interred sdk (processing_options opts) st ++ s.buried;
            expirations = s.expirations;
            unguarded = s.unguarded;
          })
      -- The handle is dropped, or its process ends: the task and its workers are gone.
      aborts :
          (before after : List (Member E H)) (m : Member E H)
          → s.members ≡ before ++ m ∷ after
          → DeployStep s (record s { members = before ++ after })
      expires :
          (u : Uuid) (state' : B.State)
          → B.expire s.state u state'
          → DeployStep s (record s { state = state'; expirations = from_uuid u ∷ s.expirations })

    -- From these contents of the store, with no subscription yet.
    pub data DeployReach (initial : B.State) : Deployment B E H → Type 0 where
      start : DeployReach initial (record {
        state = initial;
        members = [];
        successes = [];
        dismissals = [];
        buried = [];
        expirations = [];
        unguarded = 0;
      })
      later :
          {s t : Deployment B E H} → DeployReach initial s → DeployStep s t → DeployReach initial t
