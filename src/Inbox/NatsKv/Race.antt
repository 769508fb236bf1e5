-- ===== src/Inbox/NatsKv/Race.antt =====
-- Two clients of one NATS KV bucket: how both can win the claim on one message.
use eventbus_rs.Prelude.{
  String, ◌≡◌, ◌≢◌, refl, sym, arith, none, some, Result, ok, err, inl, eq_iff,
}
use eventbus_rs.Core.Error.{BusError}
use eventbus_rs.Core.Id.{MessageId, UuidApi, show_id}
use eventbus_rs.Core.Idempotency.{ClaimOutcome, claimed}
use eventbus_rs.Effect.{ret, call, ◌>>◌}
use eventbus_rs.Inbox.NatsKv.{
  KvCall, KvReply, KvTask, kv_pending, create, put, get, purge, create_key_value, try_claim,
  release,
}
use eventbus_rs.Inbox.NatsKv.Promise.{Bucket, write, Serves}

-- Two tasks over one bucket, a call of either at a time, which the server answers.
pub data Race (A : Type 0) (Server : Bucket → (c : KvCall) → KvReply c → Bucket → Type 0)
    (db₀ : Bucket) (s₀ t₀ : KvTask A) : Bucket → KvTask A → KvTask A → Type 0 where
  start : Race A Server db₀ s₀ t₀ db₀ s₀ t₀
  left :
      {db db' : Bucket} {c : KvCall} {k : KvReply c → KvTask A} {t : KvTask A} (r : KvReply c)
      → Race A Server db₀ s₀ t₀ db (call c k) t
      → Server db c r db'
      → Race A Server db₀ s₀ t₀ db' (k r) t
  right :
      {db db' : Bucket} {c : KvCall} {k : KvReply c → KvTask A} {s : KvTask A} (r : KvReply c)
      → Race A Server db₀ s₀ t₀ db s (call c k)
      → Server db c r db'
      → Race A Server db₀ s₀ t₀ db' s (k r)

-- The promise is broken for every absent key: if the first of two claims has its `create` fail, for
-- whatever reason, without being carried out, both are reported as won.
pub try_claim_twice :
    (uuids : UuidApi) (id : MessageId) (db : Bucket) (reason : String)
    → db (show_id uuids id) ≡ none
    → Race
        (Result ClaimOutcome BusError)
        Serves
        db
        (try_claim uuids id)
        (try_claim uuids id)
        (write (show_id uuids id) (some kv_pending) db)
        (ret (ok claimed))
        (ret (ok claimed))
unfolding try_claim
try_claim_twice uuids id db reason absent =
    right (ok tt) (left (ok none) (left (err reason) start (inl refl)) (sym absent, refl))
      (absent, refl)

-- A server that carries out every request: a `create` fails on a present key only, and nothing else
-- fails.
abbrev pub Works : Bucket → (c : KvCall) → KvReply c → Bucket → Type 0
Works db (create k v) (ok r) db' = Serves db (create k v) (ok r) db'
Works db (create k v) (err _) db' = (db k ≢ none) × (db' ≡ db)
Works db (get k) (ok r) db' = Serves db (get k) (ok r) db'
Works db (get k) (err _) db' = ⊥
Works db (put k v) (ok r) db' = Serves db (put k v) (ok r) db'
Works db (put k v) (err _) db' = ⊥
Works db (purge k) (ok r) db' = Serves db (purge k) (ok r) db'
Works db (purge k) (err _) db' = ⊥
Works db (create_key_value cfg) (ok r) db' = db' ≡ db
Works db (create_key_value cfg) (err _) db' = ⊥

pub write-none : (k : String) (db : Bucket) → write k none db k ≡ none
write-none k db = ground (arith, eq_iff k k)

-- The promise is broken with no failure at all, for every present key: a worker releases its claim and
-- then claims again, for the redelivery, while another worker is between its failed `create` and its
-- `get`. Both claims are reported as won.
pub try_claim_beside_release :
    (uuids : UuidApi) (id : MessageId) (db : Bucket) (value reason : String)
    → db (show_id uuids id) ≡ some value
    → Race
        (Result ClaimOutcome BusError)
        Works
        db
        (try_claim uuids id)
        (release uuids id >> try_claim uuids id)
        (write (show_id uuids id) (some kv_pending) (write (show_id uuids id) none db))
        (ret (ok claimed))
        (ret (ok claimed))
unfolding try_claim release
try_claim_beside_release uuids id db value reason there =
    let key : String = show_id uuids id in
    let gone : write key none db key ≡ none = write-none key db in
    right (ok tt)
      (left (ok none) (right (ok tt) (left (err reason) start (present, refl)) refl)
        (sym gone, refl))
      (gone, refl)
  where
    present : db (show_id uuids id) ≢ none
    present e = ground arith
