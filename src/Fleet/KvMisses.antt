-- ===== src/Fleet/KvMisses.antt =====
-- Where the misses of a NATS bucket come from: with no request that fails, a claim finds no entry only
-- after its key has expired or a worker has purged it.
use eventbus_rs.Prelude.{
  ℕ, ◌+◌, ◌≤◌, ◌≡◌, ap, subst, arith, Bool, true, false, ok, err, ◌&&◌, List, ◌∷◌, ◌++◌, count,
  count-append, count-middle, if◌then◌else◌, ◌==◌, eq_iff, All, All-around, inl,
}
use eventbus_rs.Core.Id.{Uuid, MessageId, UuidApi, Readable, from_uuid, show_id}
use eventbus_rs.Effect.{call}
use eventbus_rs.Subscriber.Message.{Sdk}
use eventbus_rs.Inbox.NatsKv.{KvCall, KvReply, create_key_value, create, put, get, purge}
use eventbus_rs.Inbox.NatsKv.Promise.{Bucket, Serves, same_key, key_test}
use eventbus_rs.Inbox.NatsKv.Race.{Works}
use eventbus_rs.Fleet.Budget.{won}
use eventbus_rs.Fleet.KvSystem.{
  Request, on_bucket, elsewhere, RequestReply, KvPhase, between, looking, kv_next, miss, purged,
  KvWorker, KvFleet, ServesRequest, KvStep, deliver, reply, stop, expire, KvReach, start, later,
}
use eventbus_rs.Fleet.KvRules.{permitted, Follows}
use eventbus_rs.Fleet.KvBudget.{entry, KvInv, KvReach-KvInv}
use eventbus_rs.Fleet.KvExclusion.{kv_running, kv_handler_exclusive}

-- A server that carries out every request is one that may.
Works-Serves :
    (db : Bucket) (c : KvCall) (r : KvReply c) (db' : Bucket) → Works db c r db' → Serves db c r db'
Works-Serves db (create k v) (ok _) db' w = w
Works-Serves db (create k v) (err _) db' w = inl w.1
Works-Serves db (get k) (ok r) db' w = w
Works-Serves db (put k v) (ok _) db' w = w
Works-Serves db (purge k) (ok _) db' w = w
Works-Serves db (create_key_value cfg) (ok _) db' w = w
Works-Serves db (create_key_value cfg) (err _) db' w = elim w [ ]
Works-Serves db (get k) (err _) db' w = elim w [ ]
Works-Serves db (put k v) (err _) db' w = elim w [ ]
Works-Serves db (purge k) (err _) db' w = elim w [ ]

abbrev is_looking : KvPhase → Bool
is_looking looking = true
is_looking (between φ) = false

abbrev look : Uuid → MessageId → KvPhase → ℕ
look u id κ = if id.uuid == u && is_looking κ then 1 else 0

module _ {E H : Type 0} where
  Works-ServesRequest :
      (db : Bucket) (c : Request E H) (r : RequestReply c) (db' : Bucket)
      → ServesRequest Works db c r db'
      → ServesRequest Serves db c r db'
  Works-ServesRequest db (on_bucket c) r db' w = Works-Serves db c r db' w
  Works-ServesRequest db (elsewhere c) r db' w = w

  -- The workers that have failed to create the key of this id, and have not looked at it yet.
  abbrev lookers : Uuid → List (KvWorker E H) → ℕ
  lookers u = count (λ w. w.id.uuid == u && is_looking w.phase)

  lookers-middle :
      (u : Uuid) (before after : List (KvWorker E H)) (w : KvWorker E H)
      → lookers u (before ++ w ∷ after) ≡ lookers u before + lookers u after + look u w.id w.phase
  lookers-middle u before after w =
      count-middle (λ (v : KvWorker E H). v.id.uuid == u && is_looking v.phase) before after w

  -- How often the key of an id has been taken out of the bucket.
  abbrev gone : Uuid → KvFleet E H → ℕ
  gone u s = won u s.expirations + won u s.releases

  -- While the key of an id stays, it is there for those that look, and no claim has missed it.
  record Stays (uuids : UuidApi) (s : KvFleet E H) (u : Uuid) : Type 0 where
    there : entry uuids s.bucket u ≡ 0 → lookers u s.workers ≡ 0
    hit : won u s.misses ≡ 0

  module _ (uuids : UuidApi) (readable : Readable uuids) where
    request_stays :
        (id : MessageId) (κ : KvPhase) (c : Request E H) (r : RequestReply c) (db db' : Bucket)
        → permitted uuids id c κ ≡ true
        → ServesRequest Works db c r db'
        → (u : Uuid) (others : ℕ) → won u (purged id c) ≡ 0
        → (entry uuids db u ≡ 0 → others + look u id κ ≡ 0)
        → (won u (miss id c r) ≡ 0)
          × (entry uuids db' u ≡ 0 → others + look u id (kv_next κ c r) ≡ 0)
    request_stays id κ (on_bucket (create k v)) r db db' p s u others h t =
        ground (arith, same_key uuids readable id u, eq_iff k (show_id uuids id))
    request_stays id κ (on_bucket (get k)) r db db' p s u others h t =
        ground (arith, same_key uuids readable id u, eq_iff k (show_id uuids id))
    request_stays id κ (on_bucket (put k v)) r db db' p s u others h t =
        ground (arith, key_test uuids readable id k u)
    request_stays id κ (on_bucket (purge k)) r db db' p s u others h t =
        ground (arith, key_test uuids readable id k u)
    request_stays id κ (on_bucket (create_key_value cfg)) r db db' p s u others h t = ground arith
    request_stays id κ (elsewhere c) r db db' p s u others h t = ground arith

module _ {E H : Type 0} (sdk : Sdk E H) where
  working-KvReach :
      {bucket : Bucket} {s : KvFleet E H} → KvReach sdk Works bucket s → KvReach sdk Serves bucket s
  working-KvReach start = start
  working-KvReach (later r (deliver opts msg info known)) =
      later (working-KvReach r) (deliver opts msg info known)
  working-KvReach (later {s} r (reply before after id κ c k x bucket' e w)) =
      later (working-KvReach r)
        (reply before after id κ c k x bucket' e (Works-ServesRequest s.bucket c x bucket' w))
  working-KvReach (later r (stop before after w e)) =
      later (working-KvReach r) (stop before after w e)
  working-KvReach (later r (expire u)) = later (working-KvReach r) (expire u)

  abbrev Keeps : KvWorker E H → Type 0
  Keeps w = Follows sdk.uuids w.id w.phase w.task

  module _ (readable : Readable sdk.uuids) (u : Uuid) where
    KvStep-Stays :
        {s t : KvFleet E H}
        → KvInv sdk.uuids s
        → KvStep sdk Works s t
        → gone u t ≡ 0
        → (gone u s ≡ 0 → Stays sdk.uuids s u)
        → Stays sdk.uuids t u
    KvStep-Stays inv (deliver opts msg info known) g stays =
        let i = stays g in record { there = ground (arith, i.there); hit = i.hit }
    KvStep-Stays {s} inv (reply before after id κ c k r bucket' e w) g stays =
        let here = won-purged g in
        let i = stays here.1 in
        let waiting : KvWorker E H = record { id = id; phase = κ; task = call c k } in
        let follows = (All-around Keeps before after waiting (subst (All Keeps) e inv.follow)).0 in
        let next =
          request_stays sdk.uuids readable id κ c r s.bucket bucket' follows.0 w u
            (lookers u before + lookers u after) here.0
            (λ z.
              omega (arith, i.there z, ap (lookers u) e, lookers-middle u before after waiting)) in
        record {
          there = λ z. omega (
            arith,
            next.1 z,
            lookers-middle u before after (record waiting { phase = kv_next κ c r; task = k r }),
          );
          hit = omega (
            arith,
            next.0,
            i.hit,
            count-append (λ (i : MessageId). i.uuid == u) (miss id c r) s.misses,
          );
        }
      where
        won-purged :
            won u s.expirations + won u (purged id c ++ s.releases) ≡ 0
            → (won u (purged id c) ≡ 0) × (gone u s ≡ 0)
        won-purged g =
            let split = count-append (λ (i : MessageId). i.uuid == u) (purged id c) s.releases in
            (omega (arith, split), omega (arith, split))
    KvStep-Stays {s} inv (stop before after w e) g stays =
        let i = stays g in
        record {
          there = λ z. omega (
            arith,
            i.there z,
            ap (lookers u) e,
            lookers-middle u before after w,
            count-append (λ (v : KvWorker E H). v.id.uuid == u && is_looking v.phase) before after,
          );
          hit = i.hit;
        }
    KvStep-Stays {s} inv (expire v) g stays =
        let i = stays (ground arith) in
        record {
          there = ground (arith, i.there, same_key sdk.uuids readable (from_uuid v) u);
          hit = i.hit;
        }

    KvReach-Stays :
        {bucket : Bucket} {s : KvFleet E H}
        → KvReach sdk Works bucket s
        → gone u s ≡ 0
        → Stays sdk.uuids s u
    KvReach-Stays start g = record { there = λ z. omega arith; hit = omega arith }
    KvReach-Stays (later r st) g =
        KvStep-Stays (KvReach-KvInv sdk readable (working-KvReach r)) st g (KvReach-Stays r)

    -- Any number of workers over one NATS bucket where no request fails but a `create` on a present key,
    -- with every request interleaved and with crashes: as long as the key of a message id has not
    -- expired and no worker has given the id back, the workers in the handler and the successes of the
    -- handler are together at most one.
    pub kv_exclusive_until_released :
        {bucket : Bucket} {s : KvFleet E H}
        → KvReach sdk Works bucket s
        → won u s.expirations ≡ 0
        → won u s.releases ≡ 0
        → kv_running u s.workers + won u s.successes ≤ 1
    kv_exclusive_until_released r unexpired unreleased =
        let stays = KvReach-Stays r (omega arith) in
        omega (arith, stays.hit, kv_handler_exclusive sdk readable (working-KvReach r) u)
