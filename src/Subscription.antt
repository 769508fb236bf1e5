-- ===== src/Subscription.antt =====
-- A running subscription of crates/bus-nats/src/subscriber.rs: the task that `subscribe` spawns
-- together with its workers, each of which runs `process_message`. The server, the store, the
-- handler and the scheduler choose what happens next.
pub mod Jobs
pub mod Answered
pub mod Ends
pub mod Ledger
pub mod Refines
mod Examples
use eventbus_rs.Prelude.{◌≡◌, Bool, true, false, some, List, [], ◌∷◌, ◌++◌, ℕ}
use eventbus_rs.Effect.{ret, call}
use eventbus_rs.Calls.{Call, Reply, Task}
use eventbus_rs.Subscriber.Options.{ProcessingOptions}
use eventbus_rs.Subscriber.Message.{Message, Sdk}
use eventbus_rs.Subscriber.Observe.{Run}
use eventbus_rs.Subscriber.Process.{process_message}
use eventbus_rs.Subscriber.Loop.Workers.{is_own}
use eventbus_rs.Subscriber.Loop.{
  Point, permitting, Loop, Happening, worker_ended, permitted, init, step,
}

-- A worker: its message, its calls so far in order, and what it still does.
pub record Job (E H : Type 0) : Type 0 where
  pub msg : Message H
  pub calls : Run E H
  pub task : Task E H (Unit {0})

pub record System (E H : Type 0) : Type 0 where
  pub loop : Loop (Message H)
  pub jobs : List (Job E H)
  pub finished : List (Message H × Run E H)  -- the workers that have returned, the last one first
  pub panicked : List (Message H)  -- the messages whose worker has panicked

module _ {E H : Type 0} (sdk : Sdk E H) (opts : ProcessingOptions) where
  abbrev pub job : Message H → Job E H
  job msg = record { msg = msg; calls = []; task = process_message sdk opts msg }

  pub data Step (s : System E H) : System E H → Type 0 where
    moves :
        (h : Happening (Message H)) (l : Loop (Message H))
        → is_own h ≡ true
        → step s.loop h ≡ some l
        → Step s (record s { loop = l })
    -- `workers.spawn`, with the permit for the message in hand.
    spawns :
        (msg : Message H) (l : Loop (Message H))
        → s.loop.point ≡ permitting msg
        → step s.loop permitted ≡ some l
        → Step s (record s { loop = l; jobs = job msg ∷ s.jobs })
    calls :
        (before after : List (Job E H)) (msg : Message H) (t : Run E H) (c : Call E H)
        (k : Reply c → Task E H (Unit {0})) (r : Reply c)
        → s.jobs ≡ before ++ record { msg = msg; calls = t; task = call c k } ∷ after
        → Step s (record s {
          jobs = before ++ record { msg = msg; calls = t ++ (c, r) ∷ []; task = k r } ∷ after;
        })
    returns :
        (before after : List (Job E H)) (msg : Message H) (t : Run E H) (u : Unit {0})
        (l : Loop (Message H))
        → s.jobs ≡ before ++ record { msg = msg; calls = t; task = ret u } ∷ after
        → step s.loop worker_ended ≡ some l
        → Step s (record s { loop = l; jobs = before ++ after; finished = (msg, t) ∷ s.finished })
    panics :
        (before after : List (Job E H)) (j : Job E H) (l : Loop (Message H))
        → s.jobs ≡ before ++ j ∷ after
        → step s.loop worker_ended ≡ some l
        → Step s (record s { loop = l; jobs = before ++ after; panicked = j.msg ∷ s.panicked })

  -- From the task as `subscribe` spawns it.
  pub data Reach (concurrency : ℕ) : System E H → Type 0 where
    start :
        Reach concurrency
          (record { loop = init concurrency; jobs = []; finished = []; panicked = [] })
    later : {s t : System E H} → Reach concurrency s → Step s t → Reach concurrency t
