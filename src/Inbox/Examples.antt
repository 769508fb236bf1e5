-- ===== src/Inbox/Examples.antt =====
-- The two stores on a concrete database.
use eventbus_rs.Effect.Traces.{Oracle, trace, result}
use eventbus_rs.Inbox.Redis.{
  RedisCall, RedisReply, RedisIdempotencyConfig, default_redis_config, open_client,
  connection_manager, invoke_claim, set_done, delete, connect,
}
use eventbus_rs.Inbox.Redis.Connect.{Connects, connect-Connects}
use eventbus_rs.Prelude.{refl, ◌≡◌, [], none, some, ok, err, inl}
use eventbus_rs.Core.Id.{MessageId, from_uuid}
use eventbus_rs.Core.Idempotency.{claimed}
use eventbus_rs.Samples.{uuids, uuids-Readable, Db, redis, redis-RedisLaws, redis_store, empty}
use eventbus_rs.Inbox.Redis.Contract.{view}
use eventbus_rs.Inbox.NatsKv
use eventbus_rs.Inbox.NatsKv.{kv_pending}
use eventbus_rs.Inbox.NatsKv.Promise
use eventbus_rs.Inbox.NatsKv.Promise.{Bucket, write, Unbacked, Orphaned, try_claim_alone}
use eventbus_rs.Inbox.Interface.{IdempotencyStore}
use eventbus_rs.Inbox.Redis.Backend.{redis_backend, redis-IdempotencyStore}

abbrev id : MessageId
id = from_uuid 2

abbrev claimed_db : Db
claimed_db = write "uu" (some kv_pending) empty

-- NATS KV: the create fails, and the key is not there.
kv_run : Promise.Runs empty (NatsKv.try_claim uuids id) (ok claimed) empty
unfolding NatsKv.try_claim
kv_run = (err "timeout", empty, inl refl, (ok none, empty, (refl, refl), (refl, refl)))

redis-IdempotencyStore_example :
    IdempotencyStore (redis_backend redis uuids redis_store) (view redis uuids redis_store)
redis-IdempotencyStore_example =
    redis-IdempotencyStore redis uuids redis_store redis-RedisLaws uuids-Readable

-- The default configuration, against a server that cannot be reached.
abbrev refusing : (c : RedisCall) → RedisReply c
refusing (open_client url) = ok tt
refusing connection_manager = err "connection refused"
refusing (invoke_claim key ttl) = err "connection refused"
refusing (set_done key ttl) = err "connection refused"
refusing (delete key) = err "connection refused"

abbrev down : Oracle RedisCall RedisReply
down h c = refusing c

connect-Connects_example :
    Connects default_redis_config
      (trace down [] (connect default_redis_config))
      (result down [] (connect default_redis_config))
connect-Connects_example = connect-Connects default_redis_config down []

-- Half a millisecond is handed on as 0.
abbrev brief : RedisIdempotencyConfig
brief = record default_redis_config { ttl = 500_000 }

abbrev working : (c : RedisCall) → RedisReply c
working (open_client url) = ok tt
working connection_manager = ok tt
working (invoke_claim key ttl) = ok "claimed"
working (set_done key ttl) = ok tt
working (delete key) = ok tt

brief_ttl :
    result (λ h c. working c) [] (connect brief)
    ≡ ok (record { key_prefix = "eventbus:processed:"; ttl_ms = 0 })
unfolding connect result
brief_ttl = refl
