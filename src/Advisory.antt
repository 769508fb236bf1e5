-- ===== src/Advisory.antt =====
-- crates/bus-nats/src/advisory.rs: the background task that logs JetStream's advisories. `J` is
-- serde_json's `Value`. What is logged is data; the preview stands for its lossy decoding.
mod Logged
mod Examples
use eventbus_rs.Prelude.{
  ℕ, ◌*◌, min, String, Bool, true, false, not, Option, none, some, List, [], ◌∷◌, ◌++◌, length,
  take, ltb, Result, ok, err, if◌then◌else◌,
}
use mathlib.Core.Option
use eventbus_rs.Core.Duration.{Duration, from_secs, from_millis}
use eventbus_rs.Core.Error.{BusError, nats}
use eventbus_rs.Calls.{Bytes}

abbrev pub default_advisory_subject_filter : String
default_advisory_subject_filter = "$JS.EVENT.ADVISORY.>"

pub record AdvisoryLogOptions : Type 0 where
  pub subject_filter : String
  pub max_payload_bytes_log : ℕ

abbrev pub default_advisory_options : AdvisoryLogOptions
default_advisory_options = record {
  subject_filter = default_advisory_subject_filter;
  max_payload_bytes_log = 256;
}

-- What is asked of serde_json. `get` looks a key up in an object, and fails on any other value.
pub record JsonApi (J : Type 0) : Type 0 where
  pub from_slice : Bytes → Option J
  pub is_object : J → Bool
  pub get : String → J → Option J
  pub as_str : J → Option String

pub record ExtractedAdvisoryFields : Type 0 where
  pub advisory_type : Option String
  pub stream : Option String
  pub consumer : Option String
  pub json_ok : Bool
  pub payload_len : ℕ

pub data Log : Type 0 where
  not_json : String → ℕ → Log  -- at `warn`
  raw_prefix : String → Bytes → Log  -- at `debug`
  advisory : String → ExtractedAdvisoryFields → Log  -- at `info`

module _ {J : Type 0} (json : JsonApi J) where
  unfoldable pub str_or_none : J → String → Option String
  unfolding Option.bind
  str_or_none obj key = Option.bind (json.get key obj) json.as_str

  without_fields : Bool → ℕ → ExtractedAdvisoryFields
  without_fields json_ok payload_len = record {
    advisory_type = none;
    stream = none;
    consumer = none;
    json_ok = json_ok;
    payload_len = payload_len;
  }

  fields_of : Option J → ℕ → ExtractedAdvisoryFields
  unfolding without_fields str_or_none
  fields_of none payload_len = without_fields false payload_len
  fields_of (some value) payload_len =
      if json.is_object value
      then record {
        advisory_type = str_or_none value "type";
        stream = str_or_none value "stream";
        consumer = str_or_none value "consumer";
        json_ok = true;
        payload_len = payload_len;
      }
      else without_fields true payload_len

  unfoldable pub extract_advisory_fields : Bytes → ExtractedAdvisoryFields
  unfolding fields_of
  extract_advisory_fields payload = fields_of (json.from_slice payload) (length payload)

  preview : String → Bytes → ℕ → List Log
  preview subject payload max_payload_bytes_log =
      if ltb 0 max_payload_bytes_log
      then raw_prefix subject (take (min max_payload_bytes_log (length payload)) payload) ∷ []
      else []

  unfoldable pub log_one_advisory : String → Bytes → ℕ → List Log
  unfolding extract_advisory_fields preview
  log_one_advisory subject payload max_payload_bytes_log =
      let extracted_fields = extract_advisory_fields payload in
      if not extracted_fields.json_ok
      then not_json subject extracted_fields.payload_len
        ∷ preview subject payload max_payload_bytes_log
      else advisory subject extracted_fields ∷ []

abbrev pub backoff_initial : Duration
backoff_initial = from_millis 200

abbrev pub backoff_max : Duration
backoff_max = from_secs 30

-- The await that the task is at.
pub data Point : Type 0 where
  reading : Point  -- `subscriber.next()`
  sleeping : Point  -- after the stream has ended
  subscribing : Point
  resting : Point  -- after a failed `subscribe`
  aborted : Point  -- the handle was dropped

pub record Logger : Type 0 where
  pub point : Point
  pub backoff_duration : Duration
  pub logged : List Log  -- in order

pub data Happening : Type 0 where
  message : String → Bytes → Happening
  stream_ended : Happening
  slept : Happening
  subscribed : Happening
  subscribe_failed : Happening
  handle_dropped : Happening

-- `spawn_jetstream_advisory_logger`, given the reply to the first `subscribe`.
unfoldable pub spawn_logger : Result (Unit {0}) String → Result Logger BusError
spawn_logger (err error) = err (nats error)
spawn_logger (ok _) =
    ok (record { point = reading; backoff_duration = backoff_initial; logged = [] })

doubled : Logger → Duration
doubled s = min (s.backoff_duration * 2) backoff_max

module _ {J : Type 0} (json : JsonApi J) (max_payload_bytes_log : ℕ) where
  at_point : Logger → Point → Happening → Option Logger
  unfolding doubled log_one_advisory
  at_point s reading (message subject payload) = some (record s {
    logged = s.logged ++ log_one_advisory json subject payload max_payload_bytes_log;
  })
  at_point s reading stream_ended = some (record s { point = sleeping })
  at_point s sleeping slept = some (record s { point = subscribing; backoff_duration = doubled s })
  at_point s subscribing subscribed =
      some (record s { point = reading; backoff_duration = backoff_initial })
  at_point s subscribing subscribe_failed = some (record s { point = resting })
  at_point s resting slept = some (record s { point = subscribing; backoff_duration = doubled s })
  at_point s aborted h = none
  at_point s p handle_dropped = some (record s { point = aborted })
  at_point s p h = none

  -- `none` where it cannot happen.
  unfoldable pub step : Logger → Happening → Option Logger
  unfolding at_point
  step s h = at_point s s.point h

  continue : (Logger → Option Logger) → Option Logger → Option Logger
  continue f none = none
  continue f (some s) = f s

  unfoldable pub run : Logger → List Happening → Option Logger
  unfolding step continue
  run s [] = some s
  run s (h ∷ hs) = continue (λ t. run t hs) (step s h)
