-- ===== src/Inbox/Interface.antt =====
-- What a backend of the idempotency store offers to its clients: its own state, what each operation
-- may do to it, and the promise of the trait IdempotencyStore of crates/bus-core/src/idempotency.rs.
use eventbus_rs.Prelude.{◌≡◌, none, Result}
use eventbus_rs.Core.Error.{BusError}
use eventbus_rs.Core.Id.{Uuid, MessageId, from_uuid}
use eventbus_rs.Core.Idempotency.{ClaimOutcome, Marks, assign, Claims, MarksDone, Releases}

-- Each operation relates the state before it, its argument, its reply and the state after it.
pub record Backend : Type 1 where
  pub State : Type 0
  pub try_claim : State → MessageId → Result ClaimOutcome BusError → State → Type 0
  pub mark_done : State → MessageId → Result (Unit {0}) BusError → State → Type 0
  pub release : State → MessageId → Result (Unit {0}) BusError → State → Type 0
  pub expire : State → Uuid → State → Type 0

-- Seen through the marks that a state stands for, every operation does what the trait promises.
pub record IdempotencyStore (B : Backend) (view : B.State → Marks) : Type 0 where
  pub try_claim-Claims :
      (id : MessageId) (s s' : B.State) (r : Result ClaimOutcome BusError)
      → B.try_claim s id r s'
      → Claims (view s) id r (view s')
  pub mark_done-MarksDone :
      (id : MessageId) (s s' : B.State) (r : Result (Unit {0}) BusError)
      → B.mark_done s id r s'
      → MarksDone (view s) id r (view s')
  pub release-Releases :
      (id : MessageId) (s s' : B.State) (r : Result (Unit {0}) BusError)
      → B.release s id r s'
      → Releases (view s) id r (view s')
  pub view-expire :
      (u : Uuid) (s s' : B.State) → B.expire s u s' → view s' ≡ assign (from_uuid u) none (view s)
