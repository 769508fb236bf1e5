-- ===== src/Subscriber/Handle.antt =====
-- `SubscriptionHandle` of crates/bus-nats/src/subscriber.rs. Its task is a join handle `T` of tokio.
use eventbus_rs.Prelude.{
  ◌≡◌, arith, String, Bool, true, false, not, Option, none, some, List, [], ◌∷◌, if◌then◌else◌,
  Result, ok, err,
}
use eventbus_rs.Core.Duration.{Duration}
use eventbus_rs.Effect.{Proc, ret, ◌>>=◌, ◌>>◌, perform}
use eventbus_rs.Effect.Traces.{Event, Oracle, trace, result, Always, Always-run}

pub data HandleCall (T : Type 0) : Type 0 where
  send_shutdown : HandleCall T  -- `true` on the watch channel
  await_within : Duration → T → HandleCall T
  abort : T → HandleCall T

-- `send` fails where no receiver is left, the timeout where the task has not ended, and a task that
-- was aborted or has panicked is joined with an error.
abbrev pub HandleReply : {T : Type 0} → HandleCall T → Type 0
HandleReply send_shutdown = Result (Unit {0}) (Unit {0})
HandleReply (await_within timeout task) = Result (Result (Unit {0}) String) (Unit {0})
HandleReply (abort task) = Unit {0}

abbrev pub HandleTask : Type 0 → Type 0 → Type 0
HandleTask T A = Proc (HandleCall T) HandleReply A

pub record SubscriptionHandle (T : Type 0) : Type 0 where
  pub handle : Option T

module _ {T : Type 0} where
  abort_if_any : Option T → HandleTask T (Unit {0})
  abort_if_any none = ret tt
  abort_if_any (some handle) = do perform (abort handle); ret tt

  -- `Drop`: the field is taken, so its end does nothing more.
  unfoldable pub drop : SubscriptionHandle T → HandleTask T (Unit {0})
  unfolding abort_if_any
  drop self = abort_if_any self.handle

  after_timeout : T → Result (Result (Unit {0}) String) (Unit {0}) → HandleTask T Bool
  after_timeout handle (ok _) = ret true
  after_timeout handle (err _) = do perform (abort handle); ret false

  drain_task : Duration → Option T → HandleTask T Bool
  unfolding after_timeout
  drain_task timeout none = ret true
  drain_task timeout (some handle) = do
    ended ← perform (await_within timeout handle)
    after_timeout handle ended

  -- `drain` owns the handle, which is dropped at the end with its field taken.
  unfoldable pub drain : SubscriptionHandle T → Duration → HandleTask T Bool
  unfolding drain_task drop
  drain self timeout = do
    perform send_shutdown
    finished ← drain_task timeout self.handle
    drop (record self { handle = none })
    ret finished

abbrev pub HandleRun : Type 0 → Type 0
HandleRun T = List (Event (HandleCall T) HandleReply)

module _ {T : Type 0} where
  abbrev pub signalled_first : HandleRun T → Bool
  signalled_first ((send_shutdown, r) ∷ t) = true
  signalled_first t = false

  -- A wait for a task has run out of time.
  abbrev pub timed_out : HandleRun T → Bool
  timed_out [] = false
  timed_out ((await_within timeout task, err _) ∷ t) = true
  timed_out (_ ∷ t) = timed_out t

  abbrev pub aborted : HandleRun T → List T
  aborted [] = []
  aborted ((abort task, r) ∷ t) = task ∷ aborted t
  aborted (_ ∷ t) = aborted t

  abbrev pub tasks : Option T → List T
  tasks none = []
  tasks (some task) = task ∷ []

  pub record Drains (self : SubscriptionHandle T) (t : HandleRun T) (finished : Bool) : Type 0 where
    pub first : signalled_first t ≡ true
    pub answer : finished ≡ not (timed_out t)
    pub cut_off : aborted t ≡ (if timed_out t then tasks self.handle else [])

  drain-Always :
      (self : SubscriptionHandle T) (timeout : Duration) → Always (Drains self) (drain self timeout)
  unfolding drain
  drain-Always self timeout = ground arith

  -- `drain` signals the shutdown before all else and returns whether the task has ended in time. It
  -- aborts the task, once, exactly if the time has run out, also where the signal found no receiver or
  -- the task has panicked, and the drop of the handle afterwards aborts nothing.
  pub drain-Drains :
      (self : SubscriptionHandle T) (timeout : Duration) (o : Oracle (HandleCall T) HandleReply)
      → Drains self (trace o [] (drain self timeout)) (result o [] (drain self timeout))
  drain-Drains self timeout o =
      Always-run (Drains self) (drain self timeout) (drain-Always self timeout) o []
