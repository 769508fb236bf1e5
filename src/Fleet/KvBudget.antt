-- ===== src/Fleet/KvBudget.antt =====
-- The invariant of the workers over a NATS bucket: for each message id, the claims that are held and
-- the successes together are at most one more than its key has expired and than its claims that no
-- entry stands behind, and no more than these while the bucket has no entry for it.
use eventbus_rs.Prelude.{
  ℕ, ◌+◌, ◌≤◌, ◌≡◌, ap, subst, arith, String, Option, none, some, true, ◌&&◌, List, ◌∷◌, ◌++◌,
  count, count-append, if◌then◌else◌, ◌==◌, eq_iff, All, All-around, All-insert,
}
use eventbus_rs.Core.Id.{Uuid, MessageId, UuidApi, Readable, from_uuid, show_id}
use eventbus_rs.Effect.{call}
use eventbus_rs.Calls.{handle}
use eventbus_rs.Subscriber.Message.{Sdk}
use eventbus_rs.Subscriber.Discipline.{fresh, process_message-Obeys}
use eventbus_rs.Inbox.NatsKv.{create_key_value, create, put, get, purge}
use eventbus_rs.Inbox.NatsKv.Promise.{Bucket, Serves, same_key, key_test}
use eventbus_rs.Fleet.Budget.{won}
use eventbus_rs.Fleet.KvSystem.{
  Request, on_bucket, elsewhere, RequestReply, KvPhase, kv_holds, kv_next, kv_success, miss,
  KvWorker, KvFleet, ServesRequest, KvStep, deliver, reply, stop, expire, KvReach, start, later,
}
use eventbus_rs.Fleet.KvRules.{permitted, Follows, kv_task-Follows}

-- 1 if this is a claim on the id `u` that is held.
abbrev kv_hold : Uuid → MessageId → KvPhase → ℕ
kv_hold u id κ = if id.uuid == u && kv_holds κ then 1 else 0

abbrev pub entries : Option String → ℕ
entries none = 0
entries (some _) = 1

module _ (uuids : UuidApi) where
  abbrev pub entry : Bucket → Uuid → ℕ
  entry bucket u = entries (bucket (show_id uuids (from_uuid u)))

module _ {E H : Type 0} where
  abbrev pub kv_held : Uuid → List (KvWorker E H) → ℕ
  kv_held u = count (λ w. w.id.uuid == u && kv_holds w.phase)

  held-middle :
      (u : Uuid) (before after : List (KvWorker E H)) (w : KvWorker E H)
      → kv_held u (before ++ w ∷ after)
        ≡ kv_held u before + kv_held u after + kv_hold u w.id w.phase
  held-middle u before after w = omega (
    arith,
    count-append (λ (v : KvWorker E H). v.id.uuid == u && kv_holds v.phase) before (w ∷ after),
  )

module _ {E H : Type 0} (uuids : UuidApi) where
  pub record KvInv (s : KvFleet E H) : Type 0 where
    pub follow : All (λ (w : KvWorker E H). Follows uuids w.id w.phase w.task) s.workers
    pub budget :
        (u : Uuid)
        → kv_held u s.workers + won u s.successes
          ≤ entry uuids s.bucket u + won u s.expirations + won u s.misses

module _ {E H : Type 0} (uuids : UuidApi) (readable : Readable uuids) where
  -- One request keeps the budget of every id; `rest` counts the other workers and the successes so
  -- far, `extra` the expirations and the misses.
  request_budget :
      (id : MessageId) (κ : KvPhase) (c : Request E H) (r : RequestReply c) (db db' : Bucket)
      → permitted uuids id c κ ≡ true
      → ServesRequest Serves db c r db'
      → (u : Uuid) (rest extra : ℕ) → rest + kv_hold u id κ ≤ entry uuids db u + extra
      → rest + kv_hold u id (kv_next κ c r) + won u (kv_success c r)
        ≤ entry uuids db' u + extra + won u (miss id c r)
  request_budget id κ (on_bucket (create k v)) r db db' p s u rest extra h =
      ground (arith, same_key uuids readable id u, eq_iff k (show_id uuids id))
  request_budget id κ (on_bucket (get k)) r db db' p s u rest extra h = ground arith
  request_budget id κ (on_bucket (put k v)) r db db' p s u rest extra h =
      ground (arith, key_test uuids readable id k u)
  request_budget id κ (on_bucket (purge k)) r db db' p s u rest extra h =
      ground (arith, key_test uuids readable id k u)
  request_budget id κ (on_bucket (create_key_value cfg)) r db db' p s u rest extra h = ground arith
  request_budget id κ (elsewhere (handle ctx e)) r db db' p s u rest extra h = ground arith
  request_budget id κ (elsewhere c) r db db' p s u rest extra h = ground arith

module _ {E H : Type 0} (sdk : Sdk E H) (readable : Readable sdk.uuids) where
  abbrev Keeps : KvWorker E H → Type 0
  Keeps w = Follows sdk.uuids w.id w.phase w.task

  -- Every delivery, request, lost request or reply, crash and expiry keeps it.
  KvStep-KvInv : {s t : KvFleet E H} → KvStep sdk Serves s t → KvInv sdk.uuids s → KvInv sdk.uuids t
  KvStep-KvInv (deliver opts msg info known) inv = record {
    follow = (
      kv_task-Follows sdk.uuids _ fresh _ (process_message-Obeys sdk opts msg info known),
      inv.follow,
    );
    budget = λ u. ground (arith, inv.budget u);
  }
  KvStep-KvInv {s} (reply before after id κ c k r bucket' e serves) inv = record {
    follow = All-insert Keeps before after _ (split.0.1 r) split.1;
    budget = λ u. omega (
      arith,
      inv.budget u,
      ap (kv_held u) e,
      held-middle u before after waiting,
      held-middle u before after (record waiting { phase = kv_next κ c r; task = k r }),
      count-append (λ (i : MessageId). i.uuid == u) (kv_success c r) s.successes,
      count-append (λ (i : MessageId). i.uuid == u) (miss id c r) s.misses,
      request_budget sdk.uuids readable id κ c r s.bucket bucket' split.0.0 serves u
          (kv_held u before + kv_held u after + won u s.successes)
          (won u s.expirations + won u s.misses),
    );
  }
    where
      waiting : KvWorker E H
      waiting = record { id = id; phase = κ; task = call c k }

      split : Keeps waiting × All Keeps (before ++ after)
      split = All-around Keeps before after waiting (subst (All Keeps) e inv.follow)
  KvStep-KvInv {s} (stop before after w e) inv = record {
    follow = (All-around Keeps before after w (subst (All Keeps) e inv.follow)).1;
    budget = λ u. omega (
      arith,
      inv.budget u,
      ap (kv_held u) e,
      held-middle u before after w,
      count-append (λ (v : KvWorker E H). v.id.uuid == u && kv_holds v.phase) before after,
    );
  }
  KvStep-KvInv {s} (expire v) inv = record {
    follow = inv.follow;
    budget = λ u. ground (arith, inv.budget u, same_key sdk.uuids readable (from_uuid v) u);
  }

  pub KvReach-KvInv :
      {bucket : Bucket} {s : KvFleet E H} → KvReach sdk Serves bucket s → KvInv sdk.uuids s
  KvReach-KvInv start = record { follow = tt; budget = λ u. omega arith }
  KvReach-KvInv (later r st) = KvStep-KvInv st (KvReach-KvInv r)
