-- ===== src/Inbox/NatsKv/Promise.antt =====
-- Where `try_claim` on NATS KV keeps the promise of `IdempotencyStore`, and where it does not.
use mathlib.Core.Option
use mathlib.Core.Option.{some-injective}
use text.Mathlib.TextEquality.{eq_iff}
use eventbus_rs.Prelude.{
  String, ◌≡◌, sym, ap, ◌∙◌, arith, Option, none, some, Result, ok, err, ◌⊎◌, inl, inr, str_eq,
  true, if◌then◌else◌, same_test, ◌==◌, ==_iff, fun_ext,
}
use eventbus_rs.Core.Error.{BusError}
use eventbus_rs.Core.Id.{Uuid, MessageId, UuidApi, Readable, from_uuid, show_id}
use eventbus_rs.Core.Idempotency.{
  ClaimOutcome, claimed, already_pending, Mark, Marks, pending, done, assign, Claims,
}
use eventbus_rs.Effect.{ret, call}
use eventbus_rs.Inbox.NatsKv.{
  KvCall, KvReply, KvTask, kv_pending, kv_done, create, put, get, purge, try_claim,
}

-- A bucket, while no key expires.
abbrev pub Bucket : Type 0
Bucket = String → Option String

abbrev pub write : String → Option String → Bucket → Bucket
write k v db j = if str_eq k j then v else db j

-- What async-nats documents of a bucket: `create` succeeds on an absent key only, `get` reads the
-- value that is there, and a purged key is absent. A write that fails may have been carried out.
abbrev pub Serves : Bucket → (c : KvCall) → KvReply c → Bucket → Type 0
Serves db (create k v) (ok _) db' = (db k ≡ none) × (db' ≡ write k (some v) db)
Serves db (create k v) (err _) db' = (db' ≡ db) ⊎ ((db k ≡ none) × (db' ≡ write k (some v) db))
Serves db (get k) (ok value) db' = (value ≡ db k) × (db' ≡ db)
Serves db (put k v) (ok _) db' = db' ≡ write k (some v) db
Serves db (put k v) (err _) db' = (db' ≡ db) ⊎ (db' ≡ write k (some v) db)
Serves db (purge k) (ok _) db' = db' ≡ write k none db
Serves db (purge k) (err _) db' = (db' ≡ db) ⊎ (db' ≡ write k none db)
Serves db c r db' = db' ≡ db

-- The task, run alone, can return `b` with the bucket going from `db` to `db'`.
abbrev pub Runs : {A : Type 0} → Bucket → KvTask A → A → Bucket → Type 0
Runs db (ret a) b db' = (b ≡ a) × (db' ≡ db)
Runs db (call c k) b db' =
    (r : KvReply c) × (mid : Bucket) × Serves db c r mid × Runs mid (k r) b db'

-- The mark that a value stands for.
abbrev pub mark_of : String → Mark
mark_of value = if str_eq value kv_done then done else pending

module _ (uuids : UuidApi) where
  -- The marks that a bucket stands for.
  abbrev pub view : Bucket → Marks
  view db u = Option.map mark_of (db (show_id uuids (from_uuid u)))

  -- The claim is reported as won, and the store has no mark for it: nothing keeps a second claim out.
  abbrev pub Unbacked : MessageId → Result ClaimOutcome BusError → Bucket → Bucket → Type 0
  Unbacked id r db db' = (r ≡ ok claimed) × (view db id.uuid ≡ none) × (view db' ≡ view db)

  -- The claim has written its own mark, and is reported as pending elsewhere: nobody holds it.
  abbrev pub Orphaned : MessageId → Result ClaimOutcome BusError → Bucket → Bucket → Type 0
  Orphaned id r db db' =
      (r ≡ ok already_pending)
      × (view db id.uuid ≡ none)
      × (view db' ≡ assign id (some pending) (view db))

module _ (uuids : UuidApi) (readable : Readable uuids) where
  abbrev marks : Bucket → Marks
  marks = view uuids

  pub same_key :
      (id : MessageId) (u : Uuid)
      → str_eq (show_id uuids id) (show_id uuids (from_uuid u)) ≡ (id.uuid == u)
  unfolding show_id
  same_key id u =
      same_test _ _
        (λ h. (==_iff id.uuid u).1 (
          some-injective _ _
            (sym (readable id.uuid) ∙ ap uuids.parse_str ((eq_iff _ _).0 h) ∙ readable u)))
        (λ h. (eq_iff _ _).1 (ap uuids.hyphenated ((==_iff id.uuid u).0 h)))

  -- The key that a worker for `id` uses, among the keys of all ids.
  pub key_test :
      (id : MessageId) (k : String) (u : Uuid)
      → str_eq k (show_id uuids id) ≡ true
      → str_eq k (show_id uuids (from_uuid u)) ≡ (id.uuid == u)
  key_test id k u h =
      ap (λ j. str_eq j (show_id uuids (from_uuid u))) ((eq_iff _ _).0 h) ∙ same_key id u

  view-write :
      (id : MessageId) (value : Option String) (db : Bucket)
      → marks (write (show_id uuids id) value db) ≡ assign id (Option.map mark_of value) (marks db)
  view-write id value db = fun_ext λ u. rw (same_key id u) (ground arith)

  -- A claim that no other client disturbs keeps the trait's promise, but for two outcomes, both after
  -- a `create` that failed on an absent key.
  pub try_claim_alone :
      (id : MessageId) (db db' : Bucket) (r : Result ClaimOutcome BusError)
      → Runs db (try_claim uuids id) r db'
      → Claims (marks db) id r (marks db') ⊎ Unbacked uuids id r db db' ⊎ Orphaned uuids id r db db'
  unfolding try_claim
  try_claim_alone id db db' r (ok _, mid, served, rest) =
      ground (arith, view-write id (some kv_pending) db)
  try_claim_alone id db db' r (err e, mid, inl same, (ok value, mid', seen, rest)) = ground arith
  try_claim_alone id db db' r (err e, mid, inr written, (ok value, mid', seen, rest)) =
      ground
        (arith, view-write id (some kv_pending) db, eq_iff (show_id uuids id) (show_id uuids id))
  try_claim_alone id db db' r (err e, mid, inl same, (err e', mid', seen, rest)) = ground arith
  try_claim_alone id db db' r (err e, mid, inr written, (err e', mid', seen, rest)) =
      ground (arith, view-write id (some kv_pending) db)
