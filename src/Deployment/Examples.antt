-- ===== src/Deployment/Examples.antt =====
-- Two subscriptions over one Redis; a worker of the first has won the claim on its message.
use eventbus_rs.Prelude.{arith, ℕ, ◌+◌, ◌≤◌, ◌≡◌, refl, some, [], ◌∷◌, ok}
use eventbus_rs.Core.Idempotency.{claimed}
use eventbus_rs.Inbox.Interface.{Backend}
use eventbus_rs.Inbox.NatsKv.Promise.{write}
use eventbus_rs.Inbox.Redis.{try_claim, mark_done, claim_lua, full_key}
use eventbus_rs.Inbox.Redis.Contract.{view}
use eventbus_rs.Inbox.Redis.Backend.{redis_backend, redis-IdempotencyStore}
use eventbus_rs.Deployment.OverRedis.{redis_deployment_exclusive}
use eventbus_rs.Subscriber.Message.{Message}
use eventbus_rs.Subscriber.Options.{SubscribeOptions, default_options}
use eventbus_rs.Subscriber.Process.{process_message}
use eventbus_rs.Subscriber.Loop.{Loop, polling, permitting, opened, init, step}
use eventbus_rs.Subscriber.Loop
use eventbus_rs.Subscription.{moves, spawns, calls, returns}
use eventbus_rs.Fleet.Budget.{won}
use eventbus_rs.Deployment.{Deployment, DeployReach, start, later, subscribes, acts}
use eventbus_rs.Deployment.Exclusion.{handling, deployment_exclusive}
use eventbus_rs.Deployment.NoLoss.{ended_for, ended_handled_or_buried}
use eventbus_rs.Samples.{
  Headers, dlq, uuids, uuids-Readable, redis, redis-RedisLaws, redis_store, empty, sdk, message,
}

abbrev backend : Backend
backend = redis_backend redis uuids redis_store

abbrev opts : SubscribeOptions
opts = record default_options { dlq = some dlq }

abbrev task : Loop (Message Headers)
task = record (init opts.concurrency) { point = polling }

abbrev in_hand : Loop (Message Headers)
in_hand = record task { point = permitting message; received = message ∷ [] }

abbrev working : Loop (Message Headers)
working = record in_hand { point = polling; permits = 0; active = 1; spawned = message ∷ [] }

one_handles :
    (s : Deployment backend ℕ Headers) × DeployReach sdk backend empty s × (handling 7 s ≡ 1)
unfolding step init process_message try_claim claim_lua full_key
one_handles = (
  _,
  later
      (later
        (later
          (later (later (later start (subscribes opts)) (subscribes opts))
            (acts [] _ _ _ _ empty (moves opened task refl refl) refl refl))
          (acts [] _ _ _ _ empty (moves (Loop.message message) in_hand refl refl) refl refl))
        (acts [] _ _ _ _ empty (spawns message working refl refl) refl refl))
      (acts [] _ _ _ _ (write "eventbus:processed:uuuuuuu" (some "pending") empty)
        (calls [] [] message [] _ _ (ok claimed) refl) refl
        (ok "claimed", _, (refl, refl), (refl, refl))),
  refl,
)

deployment_exclusive_example :
    handling 7 one_handles.0 + won 7 one_handles.0.successes ≤ 1 + won 7 one_handles.0.expirations
deployment_exclusive_example =
    deployment_exclusive backend sdk (view redis uuids redis_store)
      (redis-IdempotencyStore redis uuids redis_store redis-RedisLaws uuids-Readable) one_handles.1
      7

redis_deployment_exclusive_example :
    handling 7 one_handles.0 + won 7 one_handles.0.successes ≤ 1 + won 7 one_handles.0.expirations
redis_deployment_exclusive_example =
    redis_deployment_exclusive sdk redis redis-RedisLaws uuids-Readable redis_store one_handles.1 7

abbrev returned : Loop (Message Headers)
returned = record working { permits = 1; active = 0; ended = 1 }

-- Then its handler succeeds, the claim is marked done, the message acknowledged, and the worker returns.
one_acknowledges :
    (s : Deployment backend ℕ Headers) × DeployReach sdk backend empty s × (ended_for sdk 7 s ≡ 1)
unfolding step init process_message mark_done full_key one_handles
one_acknowledges = (
  _,
  later
      (later
        (later
          (later one_handles.1
            (acts [] _ _ _ _ _ (calls [] [] message _ _ _ (ok tt) refl) refl refl))
          (acts [] _ _ _ _ (write "eventbus:processed:uuuuuuu" (some "done") one_handles.0.state)
            (calls [] [] message _ _ _ (ok tt) refl) refl (ok tt, _, refl, (refl, refl))))
        (acts [] _ _ _ _ _ (calls [] [] message _ _ _ (ok tt) refl) refl refl))
      (acts [] _ _ _ _ _ (returns [] [] message _ tt returned refl refl) refl refl),
  refl,
)

ended_handled_or_buried_example :
    1 ≤ won 7 one_acknowledges.0.successes + won 7 one_acknowledges.0.buried
unfolding one_acknowledges
ended_handled_or_buried_example =
    ended_handled_or_buried sdk 7 backend (view redis uuids redis_store)
      (redis-IdempotencyStore redis uuids redis_store redis-RedisLaws uuids-Readable)
      one_acknowledges.1 refl (λ e. ground (arith, e)) (ground (arith, one_acknowledges.2))
