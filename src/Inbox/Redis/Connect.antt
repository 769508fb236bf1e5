-- ===== src/Inbox/Redis/Connect.antt =====
-- `RedisIdempotencyStore::connect`: its requests, its errors, and the time to live that it hands to
-- every later request.
use eventbus_rs.Prelude.{
  ℕ, ◌-◌, ◌*◌, ◌^◌, ◌≤◌, ◌<◌, ◌≡◌, ◌↔◌, refl, arith, List, [], ◌∷◌, Result, ok, err, min,
}
use eventbus_rs.Prelude.Text.{format}
use eventbus_rs.Core.Duration.{as_millis}
use eventbus_rs.Core.Error.{BusError, idempotency}
use eventbus_rs.Effect.Traces.{Event, Oracle, trace, result}
use eventbus_rs.Inbox.Redis.{
  RedisCall, RedisReply, RedisIdempotencyConfig, RedisIdempotencyStore, open_client,
  connection_manager, redis_error, clamp_ttl, after_open, connect,
}

-- What Redis demands of an expiry time first, by its documentation: a positive 64-bit signed integer.
abbrev pub FitsPx : ℕ → Type 0
FitsPx ttl = (1 ≤ ttl) × (ttl < 2 ^ 63)

-- The store is that of the configuration.
pub record Configured (cfg : RedisIdempotencyConfig) (store : RedisIdempotencyStore) : Type 0 where
  pub prefix : store.key_prefix ≡ cfg.key_prefix
  pub rounded : store.ttl_ms ≡ min (as_millis cfg.ttl) (2 ^ 64 - 1)
  pub usable : FitsPx store.ttl_ms ↔ (10 ^ 6 ≤ cfg.ttl) × (cfg.ttl < 2 ^ 63 * 10 ^ 6)

clamp_ttl-Configured :
    (cfg : RedisIdempotencyConfig)
    → Configured cfg
        (record { key_prefix = cfg.key_prefix; ttl_ms = clamp_ttl (as_millis cfg.ttl) })
clamp_ttl-Configured cfg = record { prefix = refl; rounded = ground arith; usable = ground arith }

-- The requests of a connection, with their replies, and what comes of it.
abbrev pub Connects :
    RedisIdempotencyConfig
    → List (Event RedisCall RedisReply)
    → Result RedisIdempotencyStore BusError
    → Type 0
Connects cfg ((open_client url, err e) ∷ []) r =
    (url ≡ cfg.url) × (r ≡ err (idempotency (format ("redis: " ∷ e ∷ []))))
Connects cfg ((open_client url, ok _) ∷ (connection_manager, err e) ∷ []) r =
    (url ≡ cfg.url) × (r ≡ err (idempotency (format ("redis: " ∷ e ∷ []))))
Connects cfg ((open_client url, ok _) ∷ (connection_manager, ok _) ∷ []) (ok store) =
    (url ≡ cfg.url) × Configured cfg store
Connects cfg t r = ⊥

-- Whatever the server replies: `connect` opens the configured URL and then connects, and stops at the
-- first error, which it returns; else the store has the configured prefix, and the configured time to
-- live in whole milliseconds, at most the largest u64. That time is a positive signed
-- 64-bit number, as Redis demands of one, exactly if the configured one is at least a millisecond and
-- below 2 ^ 63 of them.
pub connect-Connects :
    (cfg : RedisIdempotencyConfig) (o : Oracle RedisCall RedisReply)
    (h : List (Event RedisCall RedisReply))
    → Connects cfg (trace o h (connect cfg)) (result o h (connect cfg))
unfolding connect after_open redis_error trace result
connect-Connects cfg o h = ground (arith, clamp_ttl-Configured cfg)
