-- ===== src/Inbox/NatsKv.antt =====
-- crates/bus-nats/src/inbox/nats_kv.rs. The operations of async-nats' `kv::Store` are calls.
pub mod Promise
pub mod Race
use eventbus_rs.Prelude.{
  ℕ, ◌*◌, String, Option, none, some, List, [], ◌∷◌, Result, ok, err, map_err, str_eq,
  if◌then◌else◌,
}
use eventbus_rs.Core.Duration.{Duration, from_secs}
use eventbus_rs.Core.Error.{BusError, idempotency}
use eventbus_rs.Core.Id.{MessageId, UuidApi, show_id}
use eventbus_rs.Core.Idempotency.{ClaimOutcome, claimed, already_pending, already_done}
use eventbus_rs.Effect.{Proc, ret, ◌>>=◌, perform}

-- The two values that the store writes. Bytes are compared whole, so they are texts here.
abbrev pub kv_pending : String
kv_pending = "pending"

abbrev pub kv_done : String
kv_done = "done"

abbrev seconds_per_day : ℕ
seconds_per_day = 24 * 60 * 60

pub record NatsKvIdempotencyConfig : Type 0 where
  pub bucket : String
  pub num_replicas : ℕ
  pub max_age : Duration

abbrev pub default_kv_config : NatsKvIdempotencyConfig
default_kv_config = record {
  bucket = "eventbus_processed";
  num_replicas = 1;
  max_age = from_secs (7 * seconds_per_day);
}

-- The fields of `kv::Config` that the source sets.
pub record KvConfig : Type 0 where
  pub bucket : String
  pub history : ℕ
  pub max_age : Duration
  pub num_replicas : ℕ

pub data KvCall : Type 0 where
  create_key_value : KvConfig → KvCall
  create put : String → String → KvCall
  get purge : String → KvCall

abbrev pub KvReply : KvCall → Type 0
KvReply (get key) = Result (Option String) String
KvReply _ = Result (Unit {0}) String

abbrev pub KvTask : Type 0 → Type 0
KvTask A = Proc KvCall KvReply A

-- `NatsKvIdempotencyStore::new`; the store is the bucket that the calls go to.
unfoldable pub new_store : NatsKvIdempotencyConfig → KvTask (Result (Unit {0}) BusError)
new_store cfg = do
  r ← perform (
      create_key_value (record {
        bucket = cfg.bucket;
        history = 1;
        max_age = cfg.max_age;
        num_replicas = cfg.num_replicas;
      }))
  ret (map_err idempotency r)

-- The entry that a claim that could not create the key has found.
unfoldable pub found : Result (Option String) String → Result ClaimOutcome BusError
found (err e) = err (idempotency e)
found (ok (some value)) = if str_eq value kv_done then ok already_done else ok already_pending
found (ok none) = ok claimed

unfoldable pub after_create :
    String → Result (Unit {0}) String → KvTask (Result ClaimOutcome BusError)
unfolding found
after_create key (ok _) = ret (ok claimed)
after_create key (err _) = do r ← perform (get key); ret (found r)

module _ (api : UuidApi) where
  unfoldable pub try_claim : MessageId → KvTask (Result ClaimOutcome BusError)
  unfolding after_create show_id
  try_claim id = do
    created ← perform (create (show_id api id) kv_pending)
    after_create (show_id api id) created

  unfoldable pub mark_done : MessageId → KvTask (Result (Unit {0}) BusError)
  unfolding show_id
  mark_done id = do r ← perform (put (show_id api id) kv_done); ret (map_err idempotency r)

  unfoldable pub release : MessageId → KvTask (Result (Unit {0}) BusError)
  unfolding show_id
  release id = do r ← perform (purge (show_id api id)); ret (map_err idempotency r)
