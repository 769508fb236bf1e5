-- ===== src/Fleet/KvSystem.antt =====
-- The workers over crates/bus-nats/src/inbox/nats_kv.rs, whose claim is two requests: the requests of
-- the workers interleave one by one. What the server does for a request is a parameter.
use eventbus_rs.Prelude.{◌≡◌, Bool, false, none, ok, err, List, [], ◌∷◌, ◌++◌}
use eventbus_rs.Core.Id.{Uuid, MessageId, UuidApi, from_uuid, show_id}
use eventbus_rs.Effect.{Proc, call, perform, embed, interpret}
use eventbus_rs.Calls.{Call, Reply, Task, try_claim, mark_done, release}
use eventbus_rs.Subscriber.Options.{ProcessingOptions}
use eventbus_rs.Subscriber.Message.{Message, Info, Sdk, message_id}
use eventbus_rs.Subscriber.Process.{process_message}
use eventbus_rs.Subscriber.Discipline.{Phase, fresh, holding, closed, holds, next}
use eventbus_rs.Inbox.NatsKv.{
  KvCall, KvReply, kv_pending, kv_done, create_key_value, create, put, get, purge,
}
use eventbus_rs.Inbox.NatsKv
use eventbus_rs.Inbox.NatsKv.Promise.{Bucket, write}
use eventbus_rs.Fleet.System.{success}

pub data Request (E H : Type 0) : Type 0 where
  on_bucket : KvCall → Request E H
  elsewhere : Call E H → Request E H

abbrev pub RequestReply : {E H : Type 0} → Request E H → Type 0
RequestReply (on_bucket c) = KvReply c
RequestReply (elsewhere c) = Reply c

abbrev pub KvTask : Type 0 → Type 0 → Type 0
KvTask E H = Proc (Request E H) RequestReply (Unit {0})

module _ {E H : Type 0} (uuids : UuidApi) where
  -- The requests of a call.
  abbrev pub over_kv : (c : Call E H) → Proc (Request E H) RequestReply (Reply c)
  over_kv (try_claim k) = embed on_bucket (λ c r. r) (NatsKv.try_claim uuids k)
  over_kv (mark_done k) = embed on_bucket (λ c r. r) (NatsKv.mark_done uuids k)
  over_kv (release k) = embed on_bucket (λ c r. r) (NatsKv.release uuids k)
  over_kv c = perform (elsewhere c)

  abbrev pub kv_task : Task E H (Unit {0}) → KvTask E H
  kv_task t = interpret over_kv t

-- Between two calls, or between the two requests of a claim.
pub data KvPhase : Type 0 where
  between : Phase → KvPhase
  looking : KvPhase

abbrev pub kv_holds : KvPhase → Bool
kv_holds (between φ) = holds φ
kv_holds looking = false

module _ {E H : Type 0} where
  -- The phase after a request, by its reply.
  abbrev pub kv_next : KvPhase → (c : Request E H) → RequestReply c → KvPhase
  kv_next κ (on_bucket (create k v)) (ok _) = between holding
  kv_next κ (on_bucket (create k v)) (err _) = looking
  kv_next κ (on_bucket (get k)) (ok none) = between holding
  kv_next κ (on_bucket c) r = between closed
  kv_next (between φ) (elsewhere c) r = between (next φ c r)
  kv_next looking (elsewhere c) r = looking

  -- What a request does to the bucket, given its reply.
  abbrev pub ServesRequest :
      (Bucket → (c : KvCall) → KvReply c → Bucket → Type 0)
      → Bucket
      → (c : Request E H) → RequestReply c
      → Bucket
      → Type 0
  ServesRequest Server bucket (on_bucket c) r bucket' = Server bucket c r bucket'
  ServesRequest Server bucket (elsewhere c) r bucket' = bucket' ≡ bucket

  abbrev pub kv_success : (c : Request E H) → RequestReply c → List MessageId
  kv_success (elsewhere c) r = success c r
  kv_success (on_bucket c) r = []

  -- The claim that a reply lets through with no entry behind it.
  abbrev pub miss : MessageId → (c : Request E H) → RequestReply c → List MessageId
  miss id (on_bucket (get k)) (ok none) = id ∷ []
  miss id c r = []

  abbrev pub purged : MessageId → (c : Request E H) → List MessageId
  purged id (on_bucket (purge k)) = id ∷ []
  purged id c = []

pub record KvWorker (E H : Type 0) : Type 0 where
  pub id : MessageId
  pub phase : KvPhase
  pub task : KvTask E H

pub record KvFleet (E H : Type 0) : Type 0 where
  pub bucket : Bucket
  pub workers : List (KvWorker E H)
  pub successes : List MessageId  -- the ids that the handler has succeeded for, the last one first
  pub expirations : List MessageId  -- the ids whose keys have expired, the last one first
  pub releases : List MessageId  -- the ids whose keys a worker has asked to purge, the last one first
  pub misses : List MessageId  -- the ids claimed by a `get` that found no entry, the last one first

module _ {E H : Type 0} (sdk : Sdk E H) where
  abbrev pub kv_spawn : ProcessingOptions → Message H → Info → KvWorker E H
  kv_spawn opts msg info = record {
    id = message_id sdk opts msg info;
    phase = between fresh;
    task = kv_task sdk.uuids (process_message sdk opts msg);
  }

  module _ (Server : Bucket → (c : KvCall) → KvReply c → Bucket → Type 0) where
    pub data KvStep (s : KvFleet E H) : KvFleet E H → Type 0 where
      deliver :
          (opts : ProcessingOptions) (msg : Message H) (info : Info)
          → msg.info ≡ ok info
          → KvStep s (record s { workers = kv_spawn opts msg info ∷ s.workers })
      reply :
          (before after : List (KvWorker E H)) (id : MessageId) (κ : KvPhase) (c : Request E H)
          (k : RequestReply c → KvTask E H) (r : RequestReply c) (bucket' : Bucket)
          → s.workers ≡ before ++ record { id = id; phase = κ; task = call c k } ∷ after
          → ServesRequest Server s.bucket c r bucket'
          → KvStep s (record {
            bucket = bucket';
            workers = before ++ record { id = id; phase = kv_next κ c r; task = k r } ∷ after;
            successes = kv_success c r ++ s.successes;
            expirations = s.expirations;
            releases = purged id c ++ s.releases;
            misses = miss id c r ++ s.misses;
          })
      stop :
          (before after : List (KvWorker E H)) (w : KvWorker E H)
          → s.workers ≡ before ++ w ∷ after
          → KvStep s (record s { workers = before ++ after })
      expire :
          (u : Uuid)
          → KvStep s (record s {
            bucket = write (show_id sdk.uuids (from_uuid u)) none s.bucket;
            expirations = from_uuid u ∷ s.expirations;
          })

    -- From any contents of the bucket, with no worker yet.
    pub data KvReach (bucket : Bucket) : KvFleet E H → Type 0 where
      start : KvReach bucket (record {
        bucket = bucket;
        workers = [];
        successes = [];
        expirations = [];
        releases = [];
        misses = [];
      })
      later : {s t : KvFleet E H} → KvReach bucket s → KvStep s t → KvReach bucket t
