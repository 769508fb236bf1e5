-- ===== src/Client.antt =====
-- crates/bus-nats/src/stream.rs and client.rs: the events stream, and the connection that makes sure
-- of it. The client is the JetStream context that later calls go to, so it holds nothing here.
use eventbus_rs.Prelude.{ℕ, ◌*◌, String, List, [], ◌∷◌, true, none, Result, ok, err, map_err}
use eventbus_rs.Core.Duration.{Duration, from_secs}
use eventbus_rs.Core.Error.{BusError, nats}
use eventbus_rs.Effect.{ret, ◌>>=◌, perform}
use eventbus_rs.Jetstream.{StreamSpec, Setup, file, old, connect, get_or_create_stream}

pub record StreamConfig : Type 0 where
  pub name : String
  pub subjects : List String
  pub num_replicas : ℕ
  pub duplicate_window : Duration
  pub max_age : Duration

abbrev pub default_stream_config : StreamConfig
default_stream_config = record {
  name = "EVENTS";
  subjects = "events.>" ∷ [];
  num_replicas = 3;
  duplicate_window = from_secs (5 * 60);
  max_age = from_secs (7 * 24 * 3600);
}

unfoldable pub stream_spec : StreamConfig → StreamSpec
stream_spec cfg = record {
  name = cfg.name;
  subjects = cfg.subjects;
  retention = none;
  storage = file;
  discard = old;
  max_age = cfg.max_age;
  max_bytes = none;
  duplicate_window = cfg.duplicate_window;
  num_replicas = cfg.num_replicas;
  deny_delete = none;
  deny_purge = none;
  allow_direct = true;
}

module _ {O : Type 0} where
  unfoldable pub ensure_stream : StreamConfig → Setup O (Result (Unit {0}) String)
  unfolding stream_spec
  ensure_stream cfg = perform (get_or_create_stream (stream_spec cfg))

  after_connect : StreamConfig → Result (Unit {0}) String → Setup O (Result (Unit {0}) BusError)
  unfolding ensure_stream
  after_connect stream_cfg (err e) = ret (err (nats e))
  after_connect stream_cfg (ok _) = do r ← ensure_stream stream_cfg; ret (map_err nats r)

  unfoldable pub connect_with_options :
      String → O → StreamConfig → Setup O (Result (Unit {0}) BusError)
  unfolding after_connect
  connect_with_options url options stream_cfg = do
    r ← perform (connect options url)
    after_connect stream_cfg r

  -- `connect`, whose options are `ConnectOptions::default()`.
  unfoldable pub connect_default : O → String → StreamConfig → Setup O (Result (Unit {0}) BusError)
  unfolding connect_with_options
  connect_default default_connect_options url stream_cfg =
      connect_with_options url default_connect_options stream_cfg
