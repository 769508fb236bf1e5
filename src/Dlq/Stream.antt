-- ===== src/Dlq/Stream.antt =====
-- `ensure_dlq_stream` of crates/bus-nats/src/dlq.rs.
use eventbus_rs.Prelude.{String, some, [], ◌∷◌, map_err}
use eventbus_rs.Prelude.Text.{format}
use eventbus_rs.Core.Error.{BusError, nats}
use eventbus_rs.Prelude.{Result}
use eventbus_rs.Effect.{ret, ◌>>=◌, perform}
use eventbus_rs.Jetstream.{StreamSpec, Setup, limits, file, old, get_or_create_stream}
use eventbus_rs.Dlq.Config.{DlqConfig}

unfoldable pub dlq_stream_spec : String → String → DlqConfig → StreamSpec
dlq_stream_spec stream_name subject config = record {
  name = stream_name;
  subjects = subject ∷ [];
  retention = some limits;
  storage = file;
  discard = old;
  max_age = config.max_age;
  max_bytes = config.max_bytes;
  duplicate_window = config.duplicate_window;
  num_replicas = config.num_replicas;
  deny_delete = some config.deny_delete;
  deny_purge = some config.deny_purge;
  allow_direct = config.allow_direct;
}

unfoldable pub ensure_dlq_stream :
    {O : Type 0} → String → String → DlqConfig → Setup O (Result (Unit {0}) BusError)
unfolding dlq_stream_spec
ensure_dlq_stream stream_name subject config = do
  r ← perform (get_or_create_stream (dlq_stream_spec stream_name subject config))
  ret (map_err (λ e. nats (format ("ensure dlq stream " ∷ stream_name ∷ ": " ∷ e ∷ []))) r)
