-- ===== src/Fleet/Exclusion.antt =====
-- What the budget says of the handler: its runs for one message id exclude one another, and it
-- succeeds at most once, but for the times that the key expires.
use eventbus_rs.Prelude.{
  ℕ, ◌+◌, ◌≤◌, ◌≡◌, arith, Bool, true, false, ◌&&◌, List, [], ◌∷◌, count, ◌==◌,
}
use eventbus_rs.Core.Id.{Uuid, MessageId}
use eventbus_rs.Effect.{ret, call}
use eventbus_rs.Calls.{Call, Task, handle}
use eventbus_rs.Subscriber.Message.{Sdk}
use eventbus_rs.Subscriber.Discipline.{Phase, holds, Obeys}
use eventbus_rs.Fleet.System.{Worker, Fleet, Reach}
use eventbus_rs.Fleet.Budget.{held, won, AllObey, Reach-Inv}

module _ {E H : Type 0} where
  abbrev pub runs_call : Uuid → Call E H → Bool
  runs_call u (handle ctx e) = ctx.msg_id.uuid == u
  runs_call u _ = false

  abbrev pub runs_task : Uuid → Task E H (Unit {0}) → Bool
  runs_task u (ret _) = false
  runs_task u (call c k) = runs_call u c

  -- The workers that await the handler for this id.
  abbrev pub running : Uuid → List (Worker E H) → ℕ
  running u = count (λ w. runs_task u w.task)

  pub runs_call-holds :
      (u : Uuid) (id : MessageId) (φ : Phase) (t : Task E H (Unit {0}))
      → Obeys id φ t
      → runs_task u t ≡ true
      → (id.uuid == u && holds φ) ≡ true
  runs_call-holds u id φ (call (handle ctx e) k) o h = ground arith
  runs_call-holds u id φ t o h = ground arith

  pub running-le-held : (u : Uuid) (ws : List (Worker E H)) → AllObey ws → running u ws ≤ held u ws
  running-le-held u [] h = omega arith
  running-le-held u (w ∷ ws) h =
      ground (arith, running-le-held u ws h.1, runs_call-holds u w.id w.phase w.task h.0)

  -- In every interleaving of any number of workers, with replies lost, store failures, redeliveries
  -- and crashes, over a store that keeps the trait's promise: for each message id, the workers in the
  -- handler and the successes of the handler are together at most one more than the times that its
  -- key has expired. So while the key does not expire, one worker is in the handler at most, and none
  -- ever again once it has succeeded.
  pub handler_exclusive :
      (sdk : Sdk E H) {s : Fleet E H}
      → Reach sdk s
      → (u : Uuid) → running u s.workers + won u s.successes ≤ 1 + won u s.expirations
  handler_exclusive sdk {s} r u =
      let inv = Reach-Inv sdk r in
      ground (arith, running-le-held u s.workers inv.obeys, inv.budget u)
