-- ===== src/Inbox/Redis/Contract.antt =====
-- The Redis store keeps the promise of `IdempotencyStore`, request by request, lost replies included.
use text.Mathlib.TextLemmas.{append_cancel_left, append_cancel_right}
use mathlib.Core.Option
use mathlib.Core.Option.{some-injective}
use eventbus_rs.Prelude.{
  ℕ, String, ◌≡◌, sym, ap, ◌∙◌, fun_ext, arith, none, some, Result, ok, err, ◌⊎◌, inl, inr, str_eq,
  eq_iff, ◌==◌, ==_iff, if◌then◌else◌, Bool-cases, Option-cases, same_test,
}
use eventbus_rs.Core.Error.{BusError}
use eventbus_rs.Core.Id.{Uuid, MessageId, UuidApi, Readable, from_uuid}
use eventbus_rs.Core.Idempotency.{
  ClaimOutcome, Mark, Marks, claimed, already_pending, already_done, pending, done, assign, Claims,
  MarksDone, Releases,
}
use eventbus_rs.Effect.{ret, call}
use eventbus_rs.Inbox.Redis.{
  RedisApi, RedisCall, RedisReply, RedisTask, RedisIdempotencyStore, invoke_claim, set_done, delete,
  claim_lua, outcome_of, full_key, try_claim, mark_done, release,
}

-- What the Redis documentation says of GET after SET and DEL, while no key expires.
pub record RedisLaws {Db : Type 0} (api : RedisApi Db) : Type 0 where
  pub get-set_px :
      (k v j : String) (ttl : ℕ) (db : Db)
      → api.get j (api.set_px k v ttl db) ≡ (if str_eq k j then some v else api.get j db)
  pub get-del :
      (k j : String) (db : Db)
      → api.get j (api.del k db) ≡ (if str_eq k j then none else api.get j db)

module _ {Db : Type 0} (api : RedisApi Db) where
  -- What the server does for a call, given its reply. A request that fails may have been carried out.
  abbrev pub Executes : Db → (c : RedisCall) → RedisReply c → Db → Type 0
  Executes db (invoke_claim key ttl) (ok out) db' =
      (out ≡ (claim_lua api key ttl db).0) × (db' ≡ (claim_lua api key ttl db).1)
  Executes db (invoke_claim key ttl) (err e) db' = (db' ≡ db) ⊎ (db' ≡ (claim_lua api key ttl db).1)
  Executes db (set_done key ttl) (ok _) db' = db' ≡ api.set_px key "done" ttl db
  Executes db (set_done key ttl) (err _) db' = (db' ≡ db) ⊎ (db' ≡ api.set_px key "done" ttl db)
  Executes db (delete key) (ok _) db' = db' ≡ api.del key db
  Executes db (delete key) (err _) db' = (db' ≡ db) ⊎ (db' ≡ api.del key db)
  Executes db c r db' = db' ≡ db

module _ {Db A : Type 0} (api : RedisApi Db) where
  -- The task can return `a`, with the database going from `db` to `db'`.
  abbrev pub Runs : Db → RedisTask A → A → Db → Type 0
  Runs db (ret a) b db' = (b ≡ a) × (db' ≡ db)
  Runs db (call c k) b db' =
      (r : RedisReply c) × (mid : Db) × Executes api db c r mid × Runs mid (k r) b db'

abbrev pub mark_of : String → Mark
mark_of value = if str_eq value "done" then done else pending

-- The marks that a database stands for.
abbrev pub view : {Db : Type 0} → RedisApi Db → UuidApi → RedisIdempotencyStore → Db → Marks
view api uuids store db u = Option.map mark_of (api.get (full_key uuids store (from_uuid u)) db)

module _ {Db : Type 0} (api : RedisApi Db) (laws : RedisLaws api) (uuids : UuidApi)
    (readable : Readable uuids) (store : RedisIdempotencyStore) where
  abbrev marks : Db → Marks
  marks = view api uuids store

  full_key-injective :
      (u v : Uuid) → full_key uuids store (from_uuid u) ≡ full_key uuids store (from_uuid v) → u ≡ v
  unfolding full_key
  full_key-injective u v e = some-injective _ _ (
      sym (readable u)
      ∙ ap uuids.parse_str (append_cancel_right _ _ "" (append_cancel_left store.key_prefix _ _ e))
      ∙ readable v)

  same_key :
      (id : MessageId) (u : Uuid)
      → str_eq (full_key uuids store id) (full_key uuids store (from_uuid u)) ≡ (id.uuid == u)
  same_key id u =
      same_test _ _ (λ h. (==_iff id.uuid u).1 (full_key-injective id.uuid u ((eq_iff _ _).0 h)))
        (λ h.
          (eq_iff _ _).1 (ap (λ v. full_key uuids store (from_uuid v)) ((==_iff id.uuid u).0 h)))

  view-set_px :
      (id : MessageId) (value : String) (ttl : ℕ) (db : Db)
      → marks (api.set_px (full_key uuids store id) value ttl db)
        ≡ assign id (some (mark_of value)) (marks db)
  view-set_px id value ttl db = fun_ext λ u.
      rw
        (
          laws.get-set_px (full_key uuids store id) value (full_key uuids store (from_uuid u)) ttl
              db,
          same_key id u,
        )
        (ground arith)

  pub view-del :
      (id : MessageId) (db : Db)
      → marks (api.del (full_key uuids store id) db) ≡ assign id none (marks db)
  view-del id db = fun_ext λ u.
      rw
        (
          laws.get-del (full_key uuids store id) (full_key uuids store (from_uuid u)) db,
          same_key id u,
        )
        (ground arith)

  -- The text that the script returns, as the client reads it.
  outcome_of-claim_lua :
      (key : String) (ttl : ℕ) (db : Db)
      → outcome_of (claim_lua api key ttl db).0 ≡ elim (Option.map mark_of (api.get key db)) [
        | none ↦ ok claimed
        | some pending ↦ ok already_pending
        | some done ↦ ok already_done
      ]
  unfolding claim_lua outcome_of
  outcome_of-claim_lua key ttl db = elim (Option-cases (api.get key db)) [
    | inl e ↦ rw (e, claim_lua)
    | inr (current, e) ↦
        rw (e, claim_lua)
          (elim (Bool-cases (str_eq current "done")) [ inl d ↦ rw d | inr d ↦ rw d ])
  ]

  -- Whatever the key holds, whether the request or its reply is lost: a claim on Redis reports and
  -- changes the marks as the trait promises, and inserts the pending mark atomically.
  pub try_claim-Claims :
      (id : MessageId) (db db' : Db) (r : Result ClaimOutcome BusError)
      → Runs api db (try_claim uuids store id) r db'
      → Claims (marks db) id r (marks db')
  unfolding try_claim claim_lua
  try_claim-Claims id db db' r (reply, mid, served, (e, e')) = ground (
    arith,
    view-set_px id "pending" store.ttl_ms db,
    outcome_of-claim_lua (full_key uuids store id) store.ttl_ms db,
  )

  -- Marking an id done on Redis does what the trait promises: the id is done and no other changes;
  -- where the request fails, either that or nothing has happened.
  pub mark_done-MarksDone :
      (id : MessageId) (db db' : Db) (r : Result (Unit {0}) BusError)
      → Runs api db (mark_done uuids store id) r db'
      → MarksDone (marks db) id r (marks db')
  unfolding mark_done
  mark_done-MarksDone id db db' r (reply, mid, served, (e, e')) =
      ground (arith, view-set_px id "done" store.ttl_ms db)

  -- A release on Redis does what the trait promises: the id has no mark and no other changes; where
  -- the request fails, either that or nothing has happened.
  pub release-Releases :
      (id : MessageId) (db db' : Db) (r : Result (Unit {0}) BusError)
      → Runs api db (release uuids store id) r db'
      → Releases (marks db) id r (marks db')
  unfolding release
  release-Releases id db db' r (reply, mid, served, (e, e')) = ground (arith, view-del id db)
