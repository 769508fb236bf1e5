-- ===== src/Inbox/Redis/Backend.antt =====
-- The Redis store as an implementation of the interface. A key that expires is deleted.
use eventbus_rs.Prelude.{List, length, ◌≡◌, refl, ap, ◌∙◌}
use eventbus_rs.Core.Id.{UuidApi, Readable, MessageId, from_uuid}
use eventbus_rs.Inbox.Interface.{Backend, IdempotencyStore}
use eventbus_rs.Effect.Traces.{Event, Oracle, trace}
use eventbus_rs.Inbox.Redis.{
  RedisApi, RedisCall, RedisReply, RedisIdempotencyStore, full_key, try_claim, mark_done, release,
}
use eventbus_rs.Inbox.Redis.Contract.{
  RedisLaws, Runs, view, view-del, try_claim-Claims, mark_done-MarksDone, release-Releases,
}

module _ {Db : Type 0} (api : RedisApi Db) (uuids : UuidApi) (store : RedisIdempotencyStore) where
  abbrev pub redis_backend : Backend
  redis_backend = record {
    State = Db;
    try_claim = λ db id r db'. Runs api db (try_claim uuids store id) r db';
    mark_done = λ db id r db'. Runs api db (mark_done uuids store id) r db';
    release = λ db id r db'. Runs api db (release uuids store id) r db';
    expire = λ db u db'. db' ≡ api.del (full_key uuids store (from_uuid u)) db;
  }

  -- The Redis store implements the trait, for the marks that its keys stand for: each operation,
  -- whether its request or its reply is lost, and the expiry of a key.
  pub redis-IdempotencyStore :
      RedisLaws api → Readable uuids → IdempotencyStore redis_backend (view api uuids store)
  redis-IdempotencyStore laws readable = record {
    try_claim-Claims = try_claim-Claims api laws uuids readable store;
    mark_done-MarksDone = mark_done-MarksDone api laws uuids readable store;
    release-Releases = release-Releases api laws uuids readable store;
    view-expire = λ u db db' e.
        ap (view api uuids store) e ∙ view-del api laws uuids readable store (from_uuid u) db;
  }

  -- Each operation is one request to the server, so the workers interleave with every request if they
  -- do with every operation.
  pub one_request :
      (o : Oracle RedisCall RedisReply) (h : List (Event RedisCall RedisReply)) (id : MessageId)
      → (length (trace o h (try_claim uuids store id)) ≡ 1)
        × (length (trace o h (mark_done uuids store id)) ≡ 1)
        × (length (trace o h (release uuids store id)) ≡ 1)
  unfolding trace try_claim mark_done release
  one_request o h id = (refl, refl, refl)
