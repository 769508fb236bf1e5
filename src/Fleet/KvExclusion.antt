-- ===== src/Fleet/KvExclusion.antt =====
-- What the budget says of the handler over crates/bus-nats/src/inbox/nats_kv.rs.
use eventbus_rs.Prelude.{
  ℕ, ◌+◌, ◌≤◌, ◌≡◌, arith, Bool, true, false, ◌&&◌, List, [], ◌∷◌, count, ◌==◌, All,
}
use eventbus_rs.Core.Id.{Uuid, MessageId, UuidApi, Readable}
use eventbus_rs.Effect.{call}
use eventbus_rs.Calls.{handle}
use eventbus_rs.Subscriber.Message.{Sdk}
use eventbus_rs.Inbox.NatsKv.Promise.{Bucket, Serves}
use eventbus_rs.Fleet.Budget.{won}
use eventbus_rs.Fleet.KvSystem.{elsewhere, KvTask, KvPhase, kv_holds, KvWorker, KvFleet, KvReach}
use eventbus_rs.Fleet.KvRules.{Follows}
use eventbus_rs.Fleet.KvBudget.{kv_held, KvReach-KvInv}

module _ {E H : Type 0} where
  -- The worker awaits the handler for this id.
  abbrev pub in_handler : Uuid → KvTask E H → Bool
  in_handler u (call (elsewhere (handle ctx e)) k) = ctx.msg_id.uuid == u
  in_handler u _ = false

  abbrev pub kv_running : Uuid → List (KvWorker E H) → ℕ
  kv_running u = count (λ w. in_handler u w.task)

module _ {E H : Type 0} (uuids : UuidApi) (u : Uuid) where
  in_handler-holds :
      (id : MessageId) (κ : KvPhase) (t : KvTask E H)
      → Follows uuids id κ t
      → in_handler u t ≡ true
      → (id.uuid == u && kv_holds κ) ≡ true
  in_handler-holds id κ (call (elsewhere (handle ctx e)) k) f h = ground arith
  in_handler-holds id κ t f h = ground arith

  running-le-held :
      (ws : List (KvWorker E H))
      → All (λ (w : KvWorker E H). Follows uuids w.id w.phase w.task) ws
      → kv_running u ws ≤ kv_held u ws
  running-le-held [] h = omega arith
  running-le-held (w ∷ ws) h =
      ground (arith, running-le-held ws h.1, in_handler-holds w.id w.phase w.task h.0)

-- Any number of workers over one NATS bucket, with every request interleaved, lost or lost on the way
-- back, with crashes and with keys that expire, from any contents of the bucket: for each message id,
-- the workers in the handler and the successes of the handler are together at most one more than the
-- times that its key has expired and the claims that were won by a `get` that found no entry.
pub kv_handler_exclusive :
    {E H : Type 0} (sdk : Sdk E H)
    → Readable sdk.uuids
    → {bucket : Bucket} {s : KvFleet E H} → KvReach sdk Serves bucket s
    → (u : Uuid)
    → kv_running u s.workers + won u s.successes ≤ 1 + won u s.expirations + won u s.misses
kv_handler_exclusive sdk readable {s = s} r u =
    let inv = KvReach-KvInv sdk readable r in
    ground (arith, running-le-held sdk.uuids u s.workers inv.follow, inv.budget u)
