-- ===== src/Subscriber/Loop/Examples.antt =====
-- Runs of the consumer task on concrete events.
use eventbus_rs.Prelude.{ℕ, ◌≡◌, refl, none, some, false, List, [], ◌∷◌}
use eventbus_rs.Subscriber.Loop.{
  permitting, draining, Loop, Happening, signalled, worker_ended, acquired, opened, open_failed,
  slept, shutdown_seen, message, permitted, init, step, run, at_point, continue,
  reconnect_backoff_initial,
}
use eventbus_rs.Subscriber.Loop.Invariant.{Holds, Inv, run-Inv}
use eventbus_rs.Subscriber.Loop.Drain.{Stuck, zero_concurrency-Stuck}

-- Two messages with one permit: the second waits until the first worker has ended; then a drain.
abbrev events : List (Happening ℕ)
events =
    open_failed
    ∷ slept
    ∷ acquired
    ∷ opened
    ∷ message 1
    ∷ permitted
    ∷ message 2
    ∷ worker_ended
    ∷ permitted
    ∷ signalled
    ∷ shutdown_seen
    ∷ []

abbrev drained : Loop ℕ
drained = record {
  point = draining;
  reconnect_backoff = reconnect_backoff_initial;
  permits = 0;
  active = 1;
  ended = 1;
  shutdown = false;
  received = 1 ∷ 2 ∷ [];
  spawned = 1 ∷ 2 ∷ [];
}

run-events : run (init 1) events ≡ some drained
unfolding run step at_point continue init
run-events = refl

-- No worker starts without a permit.
no_permit :
    run (init {M = ℕ} 1) (opened ∷ message 1 ∷ permitted ∷ message 2 ∷ permitted ∷ []) ≡ none
unfolding run step at_point continue init
no_permit = refl

run-Inv_example : Holds (Inv 1) (run (init 1) events)
run-Inv_example = run-Inv 1 events

abbrev starved : Loop ℕ
starved = record {
  point = permitting 1;
  reconnect_backoff = reconnect_backoff_initial;
  permits = 0;
  active = 0;
  ended = 0;
  shutdown = false;
  received = 1 ∷ [];
  spawned = [];
}

run-starved : run (init 0) (opened ∷ message 1 ∷ []) ≡ some starved
unfolding run step at_point continue init
run-starved = refl

zero_concurrency-Stuck_example : Holds (Stuck 1) (run starved (signalled ∷ []))
zero_concurrency-Stuck_example =
    zero_concurrency-Stuck 1 (opened ∷ message 1 ∷ []) (signalled ∷ []) starved run-starved refl
