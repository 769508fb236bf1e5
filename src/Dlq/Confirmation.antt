-- ===== src/Dlq/Confirmation.antt =====
-- What the result of `publish_to_dlq` of crates/bus-nats/src/dlq.rs says, and how long it can take.
use eventbus_rs.Prelude.{
  ◌≡◌, ◌≤◌, arith, String, Bool, true, false, ◌&&◌, Option, none, some, [], ◌∷◌, length, Result, ok,
  err, ◌==◌,
}
use eventbus_rs.Core.Duration.{Duration}
use eventbus_rs.Core.Error.{BusError}
use eventbus_rs.Calls.{Call, Reply, Bytes, within}
use eventbus_rs.Effect.Traces.{Oracle, trace, result, Always, Always-run}
use eventbus_rs.Subscriber.Observe.{Run, confirmed, letters}
use eventbus_rs.Dlq.Publish.{publish_to_dlq}

abbrev pub is_ok : Result (Unit {0}) BusError → Bool
is_ok (ok _) = true
is_ok (err e) = false

module _ {E H : Type 0} where
  -- Every call of the run is given up after this time.
  abbrev pub all_within : Option Duration → Run E H → Bool
  all_within none t = true
  all_within (some timeout) [] = true
  all_within (some timeout) ((within d c, r) ∷ t) = (d == timeout) && all_within (some timeout) t
  all_within (some timeout) (_ ∷ t) = false

  pub record Confirms (subject : String) (payload : Bytes) (headers : H) (timeout : Option Duration)
      (t : Run E H) (r : Result (Unit {0}) BusError) : Type 0 where
    pub truthful : is_ok r ≡ confirmed t
    pub one_letter : letters t ≡ (subject, headers, payload) ∷ []
    pub two_calls : length t ≤ 2
    pub timed : all_within timeout t ≡ true

module _ (E H : Type 0) (subject : String) (payload : Bytes) (headers : H)
    (timeout : Option Duration) where
  publish_to_dlq-Always :
      Always
        (Confirms {E = E} subject payload headers timeout)
        (publish_to_dlq subject payload headers timeout)
  unfolding publish_to_dlq
  publish_to_dlq-Always = ground arith

  -- `publish_to_dlq` succeeds exactly if JetStream has confirmed the letter. It sends one letter, with the
  -- given subject, headers and payload, awaits the server twice at most, and where a timeout is
  -- configured neither wait is without it.
  pub publish_to_dlq-Confirms :
      (o : Oracle (Call E H) Reply) (h : Run E H)
      → Confirms subject payload headers timeout
          (trace o h (publish_to_dlq subject payload headers timeout))
          (result o h (publish_to_dlq subject payload headers timeout))
  publish_to_dlq-Confirms o h =
      Always-run (Confirms subject payload headers timeout)
        (publish_to_dlq subject payload headers timeout) publish_to_dlq-Always o h
