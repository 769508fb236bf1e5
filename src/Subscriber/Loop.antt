-- ===== src/Subscriber/Loop.antt =====
-- The task that `subscribe` of crates/bus-nats/src/subscriber.rs spawns, as a machine that steps on
-- what happens to it. `M` is the type of messages. The messages themselves are processed by the
-- workers, whose number is all that the loop knows of them. An abort is no step: the machine and its
-- workers are then gone.
pub mod Invariant
mod Reconnect
pub mod Workers
pub mod Messages
pub mod Drain
pub mod Exits
mod Examples
use eventbus_rs.Prelude.{
  ℕ, ◌+◌, ◌-◌, ◌*◌, min, Bool, true, false, not, ◌&&◌, Option, none, some, List, [], ◌∷◌, ◌++◌, ltb,
  ◌==◌, if◌then◌else◌,
}
use eventbus_rs.Core.Duration.{Duration, from_secs, from_millis}

abbrev pub reconnect_backoff_initial : Duration
reconnect_backoff_initial = from_millis 200

abbrev pub reconnect_backoff_max : Duration
reconnect_backoff_max = from_secs 30

-- The await that the task is at.
pub data Point (M : Type 0) : Type 0 where
  acquiring : Point M  -- `get_stream`, `get_or_create_consumer`
  opening : Point M  -- `consumer.messages()`
  sleeping : Point M  -- shutdown or the end of the back-off
  polling : Point M  -- the inner `select!`
  permitting : M → Point M  -- `acquire_owned()`, with the message in hand
  draining : Point M  -- `workers.join_next()` after the loop
  stopped : Point M

pub record Loop (M : Type 0) : Type 0 where
  pub point : Point M
  pub reconnect_backoff : Duration
  pub permits : ℕ  -- of the semaphore
  pub active : ℕ  -- workers that run, each with a permit
  pub ended : ℕ  -- workers that have ended and are not joined yet
  pub shutdown : Bool  -- a change of the watch channel that has not been seen
  pub received : List M  -- from the message stream, in order
  pub spawned : List M  -- given to a worker, in order

pub data Happening (M : Type 0) : Type 0 where
  signalled : Happening M  -- `drain` sends the shutdown
  worker_ended : Happening M
  acquired acquire_failed : Happening M
  opened open_failed : Happening M
  slept : Happening M
  shutdown_seen : Happening M
  joined : Happening M
  all_joined : Happening M  -- `join_next()` is `None`
  stream_ended stream_error : Happening M
  message : M → Happening M
  permitted : Happening M

-- The loop starts with the consumer that `subscribe` has created.
unfoldable pub init : {M : Type 0} → ℕ → Loop M
init concurrency = record {
  point = opening;
  reconnect_backoff = reconnect_backoff_initial;
  permits = concurrency;
  active = 0;
  ended = 0;
  shutdown = false;
  received = [];
  spawned = [];
}

abbrev pub when {ℓ} : {A : Type ℓ} → Bool → A → Option A
when true a = some a
when false a = none

module _ {M : Type 0} where
  -- What may happen at an await, and the state after it.
  at_point : Loop M → Point M → Happening M → Option (Loop M)
  at_point s acquiring acquired = some (record s { point = opening })
  at_point s acquiring acquire_failed = some (record s { point = sleeping })
  at_point s opening opened =
      some (record s { point = polling; reconnect_backoff = reconnect_backoff_initial })
  at_point s opening open_failed = some (record s { point = sleeping })
  at_point s sleeping shutdown_seen =
      when s.shutdown (record s { point = draining; shutdown = false })
  at_point s sleeping slept = some (record s {
    point = acquiring;
    reconnect_backoff = min (s.reconnect_backoff * 2) reconnect_backoff_max;
  })
  at_point s polling shutdown_seen =
      when s.shutdown (record s { point = draining; shutdown = false })
  at_point s polling joined =
      when (not s.shutdown && ltb 0 s.ended) (record s { ended = s.ended - 1 })
  at_point s polling stream_ended =
      when (not s.shutdown && s.ended == 0) (record s { point = sleeping })
  at_point s polling stream_error = when (not s.shutdown && s.ended == 0) s
  at_point s polling (message m) =
      when (not s.shutdown && s.ended == 0)
        (record s { point = permitting m; received = s.received ++ m ∷ [] })
  at_point s (permitting m) permitted = when (ltb 0 s.permits) (record s {
    point = polling;
    permits = s.permits - 1;
    active = s.active + 1;
    spawned = s.spawned ++ m ∷ [];
  })
  at_point s draining joined = when (ltb 0 s.ended) (record s { ended = s.ended - 1 })
  at_point s draining all_joined =
      when (s.active == 0 && s.ended == 0) (record s { point = stopped })
  at_point s p h = none

  -- `none` where it cannot happen. The select of the inner loop is biased: a pending shutdown comes
  -- first, then a worker to be joined, then the message stream. What happens while the select polls
  -- counts as happening after it.
  unfoldable pub step : Loop M → Happening M → Option (Loop M)
  unfolding at_point
  step s signalled = some (record s { shutdown = true })
  step s worker_ended =
      when (ltb 0 s.active)
        (record s { active = s.active - 1; ended = s.ended + 1; permits = s.permits + 1 })
  step s h = at_point s s.point h

  continue : (Loop M → Option (Loop M)) → Option (Loop M) → Option (Loop M)
  continue f none = none
  continue f (some s) = f s

  unfoldable pub run : Loop M → List (Happening M) → Option (Loop M)
  unfolding step continue
  run s [] = some s
  run s (h ∷ hs) = continue (λ t. run t hs) (step s h)
