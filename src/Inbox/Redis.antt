-- ===== src/Inbox/Redis.antt =====
-- crates/bus-nats/src/inbox/redis.rs. The commands GET, SET .. PX and DEL of the Redis server are a
-- parameter; the claim script, which Redis runs atomically, is modelled.
pub mod Contract
pub mod Backend
pub mod Connect
use eventbus_rs.Prelude.{
  ℕ, ◌-◌, ◌*◌, ◌^◌, String, Bool, Option, none, some, [], ◌∷◌, Result, ok, err, map_err, str_eq,
  ltb, if◌then◌else◌,
}
use eventbus_rs.Prelude.Text.{format}
use eventbus_rs.Core.Duration.{Duration, from_secs, as_millis}
use eventbus_rs.Core.Error.{BusError, idempotency}
use eventbus_rs.Core.Id.{MessageId, UuidApi, show_id}
use eventbus_rs.Core.Idempotency.{ClaimOutcome, claimed, already_pending, already_done}
use eventbus_rs.Effect.{Proc, ret, ◌>>=◌, perform}

pub record RedisApi (Db : Type 0) : Type 0 where
  pub get : String → Db → Option String
  pub set_px : String → String → ℕ → Db → Db
  pub del : String → Db → Db

abbrev seconds_per_day : ℕ
seconds_per_day = 24 * 60 * 60

pub record RedisIdempotencyConfig : Type 0 where
  pub url : String
  pub key_prefix : String
  pub ttl : Duration

abbrev pub default_redis_config : RedisIdempotencyConfig
default_redis_config = record {
  url = "redis://localhost:6379";
  key_prefix = "eventbus:processed:";
  ttl = from_secs (7 * seconds_per_day);
}

-- The connection and the compiled script stand for the server itself.
pub record RedisIdempotencyStore : Type 0 where
  pub key_prefix : String
  pub ttl_ms : ℕ  -- u64

pub data RedisCall : Type 0 where
  open_client : String → RedisCall
  connection_manager : RedisCall
  invoke_claim : String → ℕ → RedisCall
  set_done : String → ℕ → RedisCall
  delete : String → RedisCall

abbrev pub RedisReply : RedisCall → Type 0
RedisReply (invoke_claim key ttl) = Result String String
RedisReply _ = Result (Unit {0}) String

abbrev pub RedisTask : Type 0 → Type 0
RedisTask A = Proc RedisCall RedisReply A

-- `CLAIM_LUA`: what the script returns, and the database after it.
unfoldable pub claim_lua : {Db : Type 0} → RedisApi Db → String → ℕ → Db → String × Db
claim_lua api key ttl db = elim (api.get key db) [
  | none ↦ ("claimed", api.set_px key "pending" ttl db)
  | some current ↦ (if str_eq current "done" then "already_done" else "already_pending", db)
]

redis_error : String → BusError
redis_error e = idempotency (format ("redis: " ∷ e ∷ []))

-- `u64::try_from(ms).unwrap_or(u64::MAX)`.
abbrev pub clamp_ttl : ℕ → ℕ
clamp_ttl ms = if ltb ms (2 ^ 64) then ms else 2 ^ 64 - 1

after_open :
    RedisIdempotencyConfig
    → Result (Unit {0}) String
    → RedisTask (Result RedisIdempotencyStore BusError)
unfolding redis_error
after_open cfg (err e) = ret (err (redis_error e))
after_open cfg (ok _) = do
  connected ← perform connection_manager
  ret (elim connected [
    | err e ↦ err (redis_error e)
    | ok _ ↦ ok (record { key_prefix = cfg.key_prefix; ttl_ms = clamp_ttl (as_millis cfg.ttl) })
  ])

unfoldable pub connect : RedisIdempotencyConfig → RedisTask (Result RedisIdempotencyStore BusError)
unfolding after_open
connect cfg = do opened ← perform (open_client cfg.url); after_open cfg opened

outcome_of : String → Result ClaimOutcome BusError
outcome_of other =
    if str_eq other "claimed"
    then ok claimed
    else if str_eq other "already_done"
    then ok already_done
    else if str_eq other "already_pending"
    then ok already_pending
    else err (idempotency (format ("redis: unexpected claim outcome " ∷ other ∷ [])))

module _ (api : UuidApi) (store : RedisIdempotencyStore) where
  unfoldable pub full_key : MessageId → String
  unfolding show_id
  full_key id = format (store.key_prefix ∷ show_id api id ∷ [])

  claim_result : Result String String → Result ClaimOutcome BusError
  unfolding redis_error outcome_of
  claim_result (err e) = err (redis_error e)
  claim_result (ok outcome) = outcome_of outcome

  unfoldable pub try_claim : MessageId → RedisTask (Result ClaimOutcome BusError)
  unfolding claim_result
  try_claim id = do r ← perform (invoke_claim (full_key id) store.ttl_ms); ret (claim_result r)

  unfoldable pub mark_done : MessageId → RedisTask (Result (Unit {0}) BusError)
  unfolding redis_error
  mark_done id = do r ← perform (set_done (full_key id) store.ttl_ms); ret (map_err redis_error r)

  unfoldable pub release : MessageId → RedisTask (Result (Unit {0}) BusError)
  unfolding redis_error
  release id = do r ← perform (delete (full_key id)); ret (map_err redis_error r)
