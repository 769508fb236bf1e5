-- ===== src/Ack.antt =====
-- crates/bus-nats/src/ack.rs: the acknowledgement of the message at hand.
use eventbus_rs.Prelude.{some}
use eventbus_rs.Prelude.{Result, map_err}
use eventbus_rs.Effect.{ret, ◌>>=◌, perform}
use eventbus_rs.Core.Duration.{Duration}
use eventbus_rs.Core.Error.{BusError}
use eventbus_rs.Calls
use eventbus_rs.Calls.{Task, AckKind}

module _ {E H : Type 0} where
  unfoldable pub double_ack : Task E H (Result (Unit {0}) BusError)
  double_ack = do r ← perform Calls.double_ack; ret (map_err BusError.nats r)

  unfoldable pub nak_with_delay : Duration → Task E H (Result (Unit {0}) BusError)
  nak_with_delay delay = do
    r ← perform (Calls.ack_with (AckKind.nak (some delay)))
    ret (map_err BusError.nats r)

  unfoldable pub term : Task E H (Result (Unit {0}) BusError)
  term = do r ← perform (Calls.ack_with AckKind.term); ret (map_err BusError.nats r)
