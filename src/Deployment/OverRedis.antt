-- ===== src/Deployment/OverRedis.antt =====
-- Subscriptions over crates/bus-nats/src/inbox/redis.rs.
use eventbus_rs.Prelude.{◌+◌, ◌≤◌}
use eventbus_rs.Core.Id.{Uuid, Readable}
use eventbus_rs.Inbox.Redis.{RedisApi, RedisIdempotencyStore}
use eventbus_rs.Inbox.Redis.Contract.{RedisLaws, view}
use eventbus_rs.Inbox.Redis.Backend.{redis_backend, redis-IdempotencyStore}
use eventbus_rs.Subscriber.Message.{Sdk}
use eventbus_rs.Fleet.Budget.{won}
use eventbus_rs.Deployment.{Deployment, DeployReach}
use eventbus_rs.Deployment.Exclusion.{handling, deployment_exclusive}

module _ {E H Db : Type 0} (sdk : Sdk E H) (api : RedisApi Db) (laws : RedisLaws api)
    (readable : Readable sdk.uuids) (store : RedisIdempotencyStore) where
  -- Any number of subscriptions over one Redis, started and aborted at any time, with every request
  -- interleaved, lost or lost on the way back, workers that panic and keys that expire: for each message
  -- id, the workers that are in a handler and the successes of the handlers are together at most one more
  -- than the times that Redis has dropped its key.
  pub redis_deployment_exclusive :
      {initial : Db} {s : Deployment (redis_backend api sdk.uuids store) E H}
      → DeployReach sdk (redis_backend api sdk.uuids store) initial s
      → (u : Uuid) → handling u s + won u s.successes ≤ 1 + won u s.expirations
  redis_deployment_exclusive =
      deployment_exclusive (redis_backend api sdk.uuids store) sdk (view api sdk.uuids store)
        (redis-IdempotencyStore api sdk.uuids store laws readable)
