-- ===== src/Fleet/KvRules.antt =====
-- What a worker over a NATS bucket may ask for, by its phase, and that every worker keeps to it.
use eventbus_rs.Prelude.{
  ◌≡◌, arith, refl, ap, Bool, true, false, ◌&&◌, Result, Option, String, Bool-cases, inl, inr,
  map_err, none, some, ok, err, str_eq, eq_iff, ==_iff,
}
use eventbus_rs.Core.Id.{MessageId, UuidApi, show_id, eq_id, from_uuid}
use eventbus_rs.Core.Error.{BusError, idempotency}
use eventbus_rs.Core.Idempotency.{ClaimOutcome, claimed, already_pending, already_done}
use eventbus_rs.Effect.{ret, call, ◌>>=◌, embed}
use eventbus_rs.Calls.{
  Call, Reply, Task, try_claim, mark_done, release, handle, double_ack, ack_with, now,
  publish_with_headers, publish_ack, within,
}
use eventbus_rs.Subscriber.Discipline.{Phase, fresh, succeeded, closed, allowed, holds, next, Obeys}
use eventbus_rs.Inbox.NatsKv.{
  KvCall, KvReply, kv_pending, kv_done, create_key_value, create, put, get, purge, after_create,
  found,
}
use eventbus_rs.Inbox.NatsKv
use eventbus_rs.Fleet.KvSystem.{
  Request, on_bucket, elsewhere, RequestReply, KvTask, KvPhase, between, looking, kv_next, kv_task,
}

-- The worker has won a claim, and has not yet tried to close it.
abbrev claimed_once : Phase → Bool
claimed_once succeeded = true
claimed_once φ = holds φ

module _ {E H : Type 0} where
  -- A call that does not go to the store.
  abbrev outside : Call E H → Bool
  outside (try_claim k) = false
  outside (mark_done k) = false
  outside (release k) = false
  outside c = true

module _ (uuids : UuidApi) (id : MessageId) where
  own_key : (k : MessageId) → eq_id k id ≡ true → str_eq (show_id uuids k) (show_id uuids id) ≡ true
  own_key k e = (eq_iff _ _).1 (ap (λ u. show_id uuids (from_uuid u)) ((==_iff k.uuid id.uuid).0 e))

module _ {E H : Type 0} (uuids : UuidApi) (id : MessageId) where
  -- What a worker for the message `id` may ask for in each phase.
  abbrev pub permitted : Request E H → KvPhase → Bool
  permitted (on_bucket (create k v)) (between fresh) =
      str_eq k (show_id uuids id) && str_eq v kv_pending
  permitted (on_bucket (get k)) looking = str_eq k (show_id uuids id)
  permitted (on_bucket (put k v)) (between φ) =
      str_eq k (show_id uuids id) && str_eq v kv_done && claimed_once φ
  permitted (on_bucket (purge k)) (between φ) = str_eq k (show_id uuids id) && holds φ
  permitted (elsewhere c) (between φ) = outside c && allowed id φ c
  permitted _ _ = false

  abbrev pub Follows : KvPhase → KvTask E H → Type 0
  Follows κ (ret a) = Unit
  Follows κ (call c k) =
      (permitted c κ ≡ true) × ((r : RequestReply c) → Follows (kv_next κ c r) (k r))

  -- The rest of a worker after the two requests of its claim.
  looked-Follows :
      (k : MessageId) (f : Reply {E = E} {H = H} (try_claim k) → Task E H (Unit {0}))
      → ((r : Result ClaimOutcome BusError)
          → Follows (between (next {E = E} {H = H} fresh (try_claim k) r)) (kv_task uuids (f r)))
      → (r : Result (Option String) String)
      → Follows
          (kv_next {E = E} {H = H} looking (on_bucket (get (show_id uuids k))) r)
          (kv_task uuids (f (found r)))
  unfolding found
  looked-Follows k f h (err e) = h (err (idempotency e))
  looked-Follows k f h (ok none) = h (ok claimed)
  looked-Follows k f h (ok (some value)) = elim (Bool-cases (str_eq value kv_done)) [
    | inl d ↦ rw d (h (ok already_done))
    | inr d ↦ rw d (h (ok already_pending))
  ]

  claim-Follows :
      (k : MessageId) (f : Reply {E = E} {H = H} (try_claim k) → Task E H (Unit {0}))
      → str_eq (show_id uuids k) (show_id uuids id) ≡ true
      → ((r : Result ClaimOutcome BusError)
          → Follows (between (next {E = E} {H = H} fresh (try_claim k) r)) (kv_task uuids (f r)))
      → (r : Result (Unit {0}) String)
      → Follows
          (kv_next {E = E} {H = H}
            (between fresh)
            (on_bucket (create (show_id uuids k) kv_pending))
            r)
          (embed on_bucket (λ c r. r) (after_create (show_id uuids k) r) >>= λ r.
            kv_task uuids (f r))
  unfolding after_create
  claim-Follows k f own h (ok _) = h (ok claimed)
  claim-Follows k f own h (err e) = (own, looked-Follows k f h)

  -- A worker that keeps the rules for calls keeps those for requests.
  pub kv_task-Follows :
      (φ : Phase) (t : Task E H (Unit {0})) → Obeys id φ t → Follows (between φ) (kv_task uuids t)
  unfolding NatsKv.try_claim NatsKv.mark_done NatsKv.release
  kv_task-Follows φ (ret a) o = tt
  kv_task-Follows fresh (call (try_claim k) f) o = (
    rw (own_key uuids id k o.0) refl,
    claim-Follows k f (own_key uuids id k o.0)
        λ r. kv_task-Follows (next {E = E} {H = H} fresh (try_claim k) r) (f r) (o.1 r),
  )
  kv_task-Follows φ (call (try_claim k) f) o = ground arith
  kv_task-Follows φ (call (mark_done k) f) o = (
    ground (arith, o.0, own_key uuids id k),
    λ r. kv_task-Follows closed (f (map_err idempotency r)) (o.1 (map_err idempotency r)),
  )
  kv_task-Follows φ (call (release k) f) o = (
    ground (arith, o.0, own_key uuids id k),
    λ r. kv_task-Follows closed (f (map_err idempotency r)) (o.1 (map_err idempotency r)),
  )
  kv_task-Follows φ (call (handle ctx e) f) o =
      (o.0, λ r. kv_task-Follows (next {E = E} {H = H} φ (handle ctx e) r) (f r) (o.1 r))
  kv_task-Follows φ (call double_ack f) o = (o.0, λ r. kv_task-Follows φ (f r) (o.1 r))
  kv_task-Follows φ (call (ack_with kind) f) o = (o.0, λ r. kv_task-Follows φ (f r) (o.1 r))
  kv_task-Follows φ (call now f) o = (o.0, λ r. kv_task-Follows φ (f r) (o.1 r))
  kv_task-Follows φ (call (publish_with_headers s h b) f) o =
      (o.0, λ r. kv_task-Follows φ (f r) (o.1 r))
  kv_task-Follows φ (call publish_ack f) o = (o.0, λ r. kv_task-Follows φ (f r) (o.1 r))
  kv_task-Follows φ (call (within d c) f) o = (o.0, λ r. kv_task-Follows φ (f r) (o.1 r))
