-- ===== src/Calls.antt =====
-- What the consume path awaits: the idempotency store (crates/bus-core/src/idempotency.rs), the
-- application's handler, the acknowledgements and the publishing of async-nats, and the clock.
-- `E` is the event type of the subscription and `H` the header map of async-nats.
use eventbus_rs.Prelude.{ℕ, String, List, Option}
use eventbus_rs.Prelude.{Result}
use eventbus_rs.Effect.{Proc}
use eventbus_rs.Core.Duration.{Duration}
use eventbus_rs.Core.Error.{HandlerError, BusError}
use eventbus_rs.Core.Id.{MessageId}
use eventbus_rs.Core.Idempotency.{ClaimOutcome}
use eventbus_rs.Core.Handler.{HandlerCtx}

abbrev pub Bytes : Type 0
Bytes = List ℕ

pub data AckKind : Type 0 where
  nak : Option Duration → AckKind
  term : AckKind

pub data Call (E H : Type 0) : Type 0 where
  try_claim mark_done release : MessageId → Call E H
  handle : HandlerCtx → E → Call E H
  double_ack : Call E H
  ack_with : AckKind → Call E H
  now : Call E H  -- `SystemTime::now().duration_since(UNIX_EPOCH)`
  publish_with_headers : String → H → Bytes → Call E H
  publish_ack : Call E H  -- the future that `publish_with_headers` returns
  within : Duration → Call E H → Call E H  -- `tokio::time::timeout`

-- An error of async-nats is its printed text; that of a timeout has no content.
abbrev pub Reply : {E H : Type 0} → Call E H → Type 0
Reply (try_claim k) = Result ClaimOutcome BusError
Reply (mark_done k) = Result (Unit {0}) BusError
Reply (release k) = Result (Unit {0}) BusError
Reply (handle ctx e) = Result (Unit {0}) HandlerError
Reply (within d c) = Result (Reply c) (Unit {0})
Reply now = Result Duration (Unit {0})
Reply _ = Result (Unit {0}) String

-- A part of the consume path that returns an `A`.
abbrev pub Task : Type 0 → Type 0 → Type 0 → Type 0
Task E H A = Proc (Call E H) Reply A
