-- ===== src/Dlq/Headers.antt =====
-- `FailureInfo`, `build_dlq_headers` and `unix_timestamp_seconds` of crates/bus-nats/src/dlq.rs.
-- The header map of async-nats is a parameter with `new`, `insert` and `get`.
use eventbus_rs.Prelude.{
  ℕ, ◌/◌, ◌^◌, String, ◌≡◌, Option, none, some, [], ◌∷◌, Result, ok, err, str_eq, if◌then◌else◌,
}
use eventbus_rs.Prelude.Text.{format, to_string}
use eventbus_rs.Core.Duration.{Duration}
use eventbus_rs.Effect.{ret, ◌>>=◌, perform}
use eventbus_rs.Calls.{Task, now}
use eventbus_rs.Dlq.Names.{
  hdr_nats_msg_id, hdr_original_subject, hdr_original_stream, hdr_original_seq, hdr_original_msg_id,
  hdr_failure_reason, hdr_failure_class, hdr_failure_detail, hdr_retry_count, hdr_consumer,
  hdr_failed_at,
}

pub record HeaderApi (H : Type 0) : Type 0 where
  pub new : H
  pub insert : String → String → H → H
  pub get : String → H → Option String
  pub message_id : H → Option String  -- by `async_nats::header::NATS_MESSAGE_ID`

-- What async-nats documents: `insert` replaces the values of its name, and a new map is empty.
pub record HeaderLaws {H : Type 0} (api : HeaderApi H) : Type 0 where
  pub get-new : (k : String) → api.get k api.new ≡ none
  pub get-insert :
      (k v j : String) (h : H)
      → api.get j (api.insert k v h) ≡ (if str_eq k j then some v else api.get j h)

pub record FailureInfo : Type 0 where
  pub original_subject : String
  pub original_stream : String
  pub original_seq : ℕ
  pub original_msg_id : String
  pub consumer : String
  pub delivered : ℕ
  pub failure_reason : String
  pub failure_class : String
  pub failure_detail : String

unfoldable pub dedup_id : FailureInfo → String
dedup_id info = format (
    info.original_stream
    ∷ ":"
    ∷ to_string info.original_seq
    ∷ ":"
    ∷ info.consumer
    ∷ ":"
    ∷ to_string info.delivered
    ∷ [])

abbrev as_secs : Duration → ℕ
as_secs d = d / 10 ^ 9

-- A clock before the epoch is written as "0".
abbrev pub timestamp : Result Duration (Unit {0}) → String
timestamp (ok d) = to_string (as_secs d)
timestamp (err _) = "0"

unfoldable pub unix_timestamp_seconds : {E H : Type 0} → Task E H String
unix_timestamp_seconds = do t ← perform now; ret (timestamp t)

module _ {H : Type 0} (api : HeaderApi H) where
  -- The inserts of `build_dlq_headers`, given the text of the time of failure.
  unfoldable pub dlq_headers : FailureInfo → String → H
  dlq_headers info failed_at = api.insert hdr_failed_at failed_at (
      api.insert hdr_consumer info.consumer (
        api.insert hdr_retry_count (to_string info.delivered) (
          api.insert hdr_failure_detail info.failure_detail (
            api.insert hdr_failure_class info.failure_class (
              api.insert hdr_failure_reason info.failure_reason (
                api.insert hdr_original_msg_id info.original_msg_id (
                  api.insert hdr_original_seq (to_string info.original_seq) (
                    api.insert hdr_original_stream info.original_stream (
                      api.insert hdr_original_subject info.original_subject
                        (api.insert hdr_nats_msg_id (dedup_id info) api.new))))))))))

  unfoldable pub build_dlq_headers : {E : Type 0} → FailureInfo → Task E H H
  unfolding unix_timestamp_seconds dlq_headers
  build_dlq_headers info = do failed_at ← unix_timestamp_seconds; ret (dlq_headers info failed_at)
