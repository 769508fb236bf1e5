-- ===== src/Dlq/Publish.antt =====
-- `publish_to_dlq` of crates/bus-nats/src/dlq.rs: send, then wait for the JetStream ack, each within
-- the configured time.
use eventbus_rs.Prelude.{String, Option, none, some, [], ◌∷◌, Result, ok, err}
use eventbus_rs.Prelude.Text.{format}
use eventbus_rs.Core.Duration.{Duration}
use eventbus_rs.Core.Error.{BusError, nats}
use eventbus_rs.Effect.{ret, ◌>>=◌, perform}
use eventbus_rs.Calls.{Task, Bytes, publish_with_headers, publish_ack, within}

-- The two layers of `match timeout { .. }.map_err(..)?`: the reply under a timeout, and without.
abbrev timed :
    String → String → Result (Result (Unit {0}) String) (Unit {0}) → Result (Unit {0}) BusError
timed late failed (err _) = err (nats late)
timed late failed (ok (err e)) = err (nats (format (failed ∷ e ∷ [])))
timed late failed (ok (ok u)) = ok u

module _ {E H : Type 0} where
  send : String → H → Bytes → Option Duration → Task E H (Result (Unit {0}) BusError)
  send subject headers payload none = do
    r ← perform (publish_with_headers subject headers payload)
    ret (timed "dlq publish send timeout" "dlq publish send: " (ok r))
  send subject headers payload (some timeout) = do
    r ← perform (within timeout (publish_with_headers subject headers payload))
    ret (timed "dlq publish send timeout" "dlq publish send: " r)

  await_ack : Option Duration → Task E H (Result (Unit {0}) BusError)
  await_ack none = do
    r ← perform publish_ack
    ret (timed "dlq publish ack timeout" "dlq publish ack: " (ok r))
  await_ack (some timeout) = do
    r ← perform (within timeout publish_ack)
    ret (timed "dlq publish ack timeout" "dlq publish ack: " r)

  after_send : Option Duration → Result (Unit {0}) BusError → Task E H (Result (Unit {0}) BusError)
  unfolding await_ack
  after_send timeout (err e) = ret (err e)
  after_send timeout (ok _) = await_ack timeout

  unfoldable pub publish_to_dlq :
      String → Bytes → H → Option Duration → Task E H (Result (Unit {0}) BusError)
  unfolding send after_send
  publish_to_dlq subject payload headers timeout = do
    sent ← send subject headers payload timeout
    after_send timeout sent
