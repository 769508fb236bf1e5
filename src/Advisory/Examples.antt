-- ===== src/Advisory/Examples.antt =====
-- The advisory task on concrete events. A payload is JSON if it is one byte: a string.
use eventbus_rs.Prelude.{ℕ, ◌≡◌, refl, true, false, Option, none, some, List, [], ◌∷◌, ok}
use eventbus_rs.Calls.{Bytes}
use eventbus_rs.Advisory.{
  JsonApi, not_json, raw_prefix, advisory, Logger, Happening, reading, message, stream_ended, slept,
  subscribe_failed, subscribed, spawn_logger, step, run, at_point, continue, backoff_initial,
  log_one_advisory,
}
use eventbus_rs.Advisory.Logged.{Logged, Holds, run-Logged}

abbrev parse : Bytes → Option ℕ
parse (b ∷ []) = some b
parse _ = none

abbrev json : JsonApi ℕ
json = record { from_slice = parse; is_object = λ _. false; get = λ k v. none; as_str = λ v. none }

abbrev events : List Happening
events =
    message "a" (1 ∷ 2 ∷ 3 ∷ [])
    ∷ stream_ended
    ∷ slept
    ∷ subscribe_failed
    ∷ slept
    ∷ subscribed
    ∷ message "b" (7 ∷ [])
    ∷ []

abbrev started : Logger
started = record { point = reading; backoff_duration = backoff_initial; logged = [] }

abbrev ended : Logger
ended = record {
  point = reading;
  backoff_duration = backoff_initial;
  logged =
      not_json "a" 3
      ∷ raw_prefix "a" (1 ∷ 2 ∷ [])
      ∷ advisory "b" (record {
        advisory_type = none;
        stream = none;
        consumer = none;
        json_ok = true;
        payload_len = 1;
      })
      ∷ [];
}

run-events : run json 2 started events ≡ some ended
unfolding run step at_point continue log_one_advisory
run-events = refl

run-Logged_example : Holds (Logged json 2 events) (run json 2 started events)
unfolding spawn_logger
run-Logged_example = run-Logged json 2 (ok tt) started events refl
