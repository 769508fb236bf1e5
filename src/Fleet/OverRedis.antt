-- ===== src/Fleet/OverRedis.antt =====
-- The workers over crates/bus-nats/src/inbox/redis.rs.
use eventbus_rs.Prelude.{◌+◌, ◌≤◌}
use eventbus_rs.Core.Id.{Uuid, Readable}
use eventbus_rs.Inbox.Redis.{RedisApi, RedisIdempotencyStore}
use eventbus_rs.Inbox.Redis.Contract.{RedisLaws, view}
use eventbus_rs.Inbox.Redis.Backend.{redis_backend, redis-IdempotencyStore}
use eventbus_rs.Subscriber.Message.{Sdk}
use eventbus_rs.Fleet.Budget.{won}
use eventbus_rs.Fleet.Exclusion.{running}
use eventbus_rs.Fleet.Backed.{BackedFleet, BackedReach, backed_exclusive}

module _ {E H Db : Type 0} (sdk : Sdk E H) (api : RedisApi Db) (laws : RedisLaws api)
    (readable : Readable sdk.uuids) (store : RedisIdempotencyStore) where
  -- Any number of workers over one Redis, with every request interleaved, lost or lost on the way
  -- back, and keys that expire: for each message id, the workers in the handler and the successes of
  -- the handler are together at most one more than the times that Redis has dropped its key.
  pub redis_handler_exclusive :
      {s : BackedFleet (redis_backend api sdk.uuids store) E H}
      → BackedReach (redis_backend api sdk.uuids store) sdk s
      → (u : Uuid) → running u s.workers + won u s.successes ≤ 1 + won u s.expirations
  redis_handler_exclusive =
      backed_exclusive (redis_backend api sdk.uuids store) sdk (view api sdk.uuids store)
        (redis-IdempotencyStore api sdk.uuids store laws readable)
