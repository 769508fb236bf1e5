-- ===== src/Fleet/Examples.antt =====
-- A fleet in the middle of its work.
use eventbus_rs.Prelude.{ℕ, ◌+◌, ◌≤◌, ◌≡◌, refl, none, some, [], ok, err, inl, ◌≢◌, arith}
use eventbus_rs.Core.Id.{from_uuid}
use eventbus_rs.Core.Idempotency.{Marks, claimed, pending, assign}
use eventbus_rs.Samples.{
  Headers, uuids, uuids-Readable, redis, redis_store, empty, sdk, options, last_info, message,
}
use eventbus_rs.Subscriber.Process.{process_message, is_final_attempt}
use eventbus_rs.Fleet.System.{Fleet, Reach, start, later, deliver, reply, stop}
use eventbus_rs.Fleet.Budget.{won}
use eventbus_rs.Fleet.Orphan.{Orphaned, stay, orphan_never_handled}
use eventbus_rs.Inbox.Redis.{try_claim, claim_lua, full_key}
use eventbus_rs.Inbox.Redis.Backend.{redis_backend}
use eventbus_rs.Inbox.NatsKv.Promise.{write, Serves}
use eventbus_rs.Fleet.Backed.{BackedFleet, BackedReach, BackedReach-Reach, abstract_of}
use eventbus_rs.Fleet.Backed
use eventbus_rs.Fleet.OverKv.{kv_two_handlers}
use eventbus_rs.Fleet.KvSystem.{KvFleet, KvReach, on_bucket}
use eventbus_rs.Fleet.KvSystem
use eventbus_rs.Fleet.KvExclusion.{kv_running, kv_handler_exclusive}
use eventbus_rs.Fleet.KvMisses.{kv_exclusive_until_released}
use eventbus_rs.Inbox.NatsKv.{kv_pending, create, get}
use eventbus_rs.Inbox.NatsKv
use eventbus_rs.Inbox.NatsKv.Race.{Works}
use eventbus_rs.Subscriber.Message.{message_id}
use eventbus_rs.Fleet.Exclusion.{running, handler_exclusive}

abbrev no_marks : Marks
no_marks u = none

-- The message is delivered twice, and the second worker has won the claim.
claimed_once : (s : Fleet ℕ Headers) × Reach sdk s × (running 7 s.workers + won 7 s.successes ≡ 1)
unfolding process_message
claimed_once = (
  _,
  later
      (later (later (start no_marks) (deliver options message last_info refl))
        (deliver options message last_info refl))
      (reply [] _ _ _ _ _ (ok claimed) (assign (from_uuid 7) (some pending) no_marks) refl
        (refl, refl)),
  refl,
)

handler_exclusive_example :
    running 7 claimed_once.0.workers + won 7 claimed_once.0.successes
    ≤ 1 + won 7 claimed_once.0.expirations
handler_exclusive_example = handler_exclusive sdk claimed_once.1 7

-- The only worker of the message stops right after it has won the claim.
crashed : (s : Fleet ℕ Headers) × Reach sdk s × Orphaned 7 s
unfolding process_message
crashed = (
  _,
  later
      (later (later (start no_marks) (deliver options message last_info refl)) (
        reply [] _ _ _ _ _ (ok claimed) (assign (from_uuid 7) (some pending) no_marks) refl
          (refl, refl)))
      (stop [] [] _ refl),
  record { mark = refl; abandoned = refl },
)

orphan_never_handled_example :
    (crashed.0.marks 7 ≡ some pending)
    × (running 7 crashed.0.workers ≡ 0)
    × (won 7 crashed.0.successes ≡ won 7 crashed.0.successes)
orphan_never_handled_example = orphan_never_handled sdk 7 crashed.1 crashed.2 stay refl

-- The same over Redis: the message is delivered, and its worker has won the claim.
claimed_redis :
    (s : BackedFleet (redis_backend redis uuids redis_store) ℕ Headers) × BackedReach
      (redis_backend redis uuids redis_store)
      sdk
      s
    × (running 7 s.workers ≡ 1)
unfolding process_message try_claim claim_lua full_key
claimed_redis = (
  _,
  Backed.later (Backed.later (Backed.start empty) (Backed.deliver options message last_info refl)) (
      Backed.reply [] _ _ _ _ _ (ok claimed)
        (write "eventbus:processed:uuuuuuu" (some "pending") empty) refl
        (ok "claimed", _, (refl, refl), (refl, refl))),
  refl,
)

-- The deliveries of message 42 over an empty bucket.
kv_two_handlers_example :
    (s : KvFleet ℕ Headers) × KvReach sdk Works empty s
    × (s.expirations ≡ [])
    × (2 ≤ kv_running (message_id sdk options message last_info).uuid s.workers)
unfolding is_final_attempt
kv_two_handlers_example =
    kv_two_handlers sdk options message last_info 9 "busy" 1 empty refl refl refl

-- Two deliveries over an empty bucket. The `create` of the first fails and its `get` finds no entry;
-- then the second creates the key.
missed : (s : KvFleet ℕ Headers) × KvReach sdk Serves empty s × (kv_running 7 s.workers ≡ 2)
unfolding process_message NatsKv.try_claim
missed = (
  _,
  KvSystem.later
      (KvSystem.later
        (KvSystem.later
          (KvSystem.later
            (KvSystem.later KvSystem.start (KvSystem.deliver options message last_info refl))
            (KvSystem.reply [] [] _ _ (on_bucket (create "uuuuuuu" kv_pending)) _ (err "down") empty
              refl (inl refl)))
          (KvSystem.reply [] [] _ _ (on_bucket (get "uuuuuuu")) _ (ok none) empty refl
            (refl, refl)))
        (KvSystem.deliver options message last_info refl))
      (KvSystem.reply [] _ _ _ (on_bucket (create "uuuuuuu" kv_pending)) _ (ok tt)
        (write "uuuuuuu" (some kv_pending) empty) refl (refl, refl)),
  refl,
)

kv_handler_exclusive_example :
    kv_running 7 missed.0.workers + won 7 missed.0.successes
    ≤ 1 + won 7 missed.0.expirations + won 7 missed.0.misses
kv_handler_exclusive_example = kv_handler_exclusive sdk uuids-Readable missed.1 7

-- The second delivery finds the key that the first has created.
refused :
    (s : KvFleet ℕ Headers) × KvReach sdk Works empty s
    × (kv_running 7 s.workers ≡ 1)
    × (won 7 s.expirations ≡ 0)
    × (won 7 s.releases ≡ 0)
unfolding process_message NatsKv.try_claim
refused = (
  _,
  KvSystem.later
      (KvSystem.later
        (KvSystem.later
          (KvSystem.later KvSystem.start (KvSystem.deliver options message last_info refl))
          (KvSystem.reply [] [] _ _ (on_bucket (create "uuuuuuu" kv_pending)) _ (ok tt)
            (write "uuuuuuu" (some kv_pending) empty) refl (refl, refl)))
        (KvSystem.deliver options message last_info refl))
      (KvSystem.reply [] _ _ _ (on_bucket (create "uuuuuuu" kv_pending)) _
        (err "wrong last sequence") (write "uuuuuuu" (some kv_pending) empty) refl (there, refl)),
  refl,
  refl,
  refl,
)
  where
    there : write "uuuuuuu" (some kv_pending) empty "uuuuuuu" ≢ none
    there e = ground (arith, e)

kv_exclusive_until_released_example : kv_running 7 refused.0.workers + won 7 refused.0.successes ≤ 1
kv_exclusive_until_released_example =
    kv_exclusive_until_released sdk uuids-Readable 7 refused.1 refused.3 refused.4
