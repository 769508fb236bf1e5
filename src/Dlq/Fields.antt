-- ===== src/Dlq/Fields.antt =====
-- What a consumer of the DLQ reads back from the headers of a dead letter.
use eventbus_rs.Prelude.{String, ◌≡◌, some}
use eventbus_rs.Prelude.Text.{to_string}
use eventbus_rs.Dlq.Headers.{HeaderApi, HeaderLaws, FailureInfo, dedup_id, dlq_headers}

-- What a lookup of this name answers.
abbrev pub Field : {H : Type 0} → HeaderApi H → FailureInfo → String → String → String → Type 0
Field api info failed_at name value = api.get name (dlq_headers api info failed_at) ≡ some value

module _ {H : Type 0} (api : HeaderApi H) (laws : HeaderLaws api) (info : FailureInfo)
    (failed_at : String) where
  abbrev Holds : String → String → Type 0
  Holds = Field api info failed_at

  -- Each of the eleven headers holds its own value: no later insert hides an earlier one.
  pub dlq_headers-Complete :
      Holds "Nats-Msg-Id" (dedup_id info)
      × Holds "X-Original-Subject" info.original_subject
      × Holds "X-Original-Stream" info.original_stream
      × Holds "X-Original-Seq" (to_string info.original_seq)
      × Holds "X-Original-Msg-Id" info.original_msg_id
      × Holds "X-Failure-Reason" info.failure_reason
      × Holds "X-Failure-Class" info.failure_class
      × Holds "X-Failure-Detail" info.failure_detail
      × Holds "X-Retry-Count" (to_string info.delivered)
      × Holds "X-Consumer" info.consumer
      × Holds "X-Failed-At" failed_at
  unfolding dlq_headers
  dlq_headers-Complete = (
    simp laws.get-insert,
    simp laws.get-insert,
    simp laws.get-insert,
    simp laws.get-insert,
    simp laws.get-insert,
    simp laws.get-insert,
    simp laws.get-insert,
    simp laws.get-insert,
    simp laws.get-insert,
    simp laws.get-insert,
    simp laws.get-insert,
  )
