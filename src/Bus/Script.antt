-- ===== src/Bus/Script.antt =====
-- What setting up asks of the server: each task is a script of requests, made in order and left at the
-- first that fails.
use eventbus_rs.Prelude.{
  ◌≡◌, arith, String, Bool, true, false, ◌&&◌, Option, none, some, List, [], ◌∷◌, ◌++◌,
  if◌then◌else◌, Result, ok, err,
}
use eventbus_rs.Core.Error.{BusError}
use eventbus_rs.Effect.Traces.{Event, Oracle, trace, result, Always, Always-run}
use eventbus_rs.Jetstream.{
  Setup, SetupCall, SetupReply, connect, get_stream, get_or_create_stream, get_or_create_consumer,
}
use eventbus_rs.Client.{stream_spec}
use eventbus_rs.Dlq.Config.{DlqConfig, dlq_stream_name, dlq_subject}
use eventbus_rs.Dlq.Stream.{dlq_stream_spec}
use eventbus_rs.Subscriber.Options.{SubscribeOptions}
use eventbus_rs.Subscriber.Subscribe.{Subscription, pull_config, spawn_task}
use eventbus_rs.Subscriber.Subscribe
use eventbus_rs.Bus.{EventBus, subscribe}
use eventbus_rs.Bus.Builder.{EventBusBuilder, build}

abbrev pub is_ok {ℓ κ} : {A : Type ℓ} {B : Type κ} → Result A B → Bool
is_ok (ok a) = true
is_ok (err e) = false

module _ {O : Type 0} where
  abbrev pub requests : List (Event (SetupCall O) SetupReply) → List (SetupCall O)
  requests [] = []
  requests ((c, r) ∷ t) = c ∷ requests t

  -- Every request of the run succeeded.
  abbrev pub all_ok : List (Event (SetupCall O) SetupReply) → Bool
  all_ok [] = true
  all_ok ((c, r) ∷ t) = is_ok r && all_ok t

  -- The requests of a script up to the first that failed.
  abbrev pub attempted :
      List (SetupCall O) → List (Event (SetupCall O) SetupReply) → List (SetupCall O)
  attempted [] t = []
  attempted (c ∷ cs) [] = c ∷ cs
  attempted (c ∷ cs) ((d, r) ∷ t) = if is_ok r then c ∷ attempted cs t else c ∷ []

  -- The run follows the script, and returns `a` if and only if every request succeeded.
  pub record Follows {A : Type 0} (cs : List (SetupCall O)) (a : A)
      (t : List (Event (SetupCall O) SetupReply)) (r : Result A BusError) : Type 0 where
    pub in_order : requests t ≡ attempted cs t
    pub succeeds : all_ok t ≡ true → r ≡ ok a
    pub fails : all_ok t ≡ false → is_ok r ≡ false

  abbrev pub dlq_request : SubscribeOptions → DlqConfig → SetupCall O
  dlq_request opts config = get_or_create_stream (
      dlq_stream_spec (dlq_stream_name opts.stream opts.durable)
        (dlq_subject opts.stream opts.durable) config)

  -- The stream, the consumer, and the DLQ stream where there is one.
  abbrev pub subscribe_script : SubscribeOptions → List (SetupCall O)
  subscribe_script opts =
      get_stream opts.stream
      ∷ get_or_create_consumer opts.durable (pull_config opts)
      ∷ elim opts.dlq [ none ↦ [] | some dlq_opts ↦ dlq_request opts dlq_opts.config ∷ [] ]

abbrev pub Requests : Type 0 → Type 0
Requests O = Oracle (SetupCall O) SetupReply

-- How the run of a task against an oracle relates to a script.
abbrev pub FollowedBy :
    {O A : Type 0} → List (SetupCall O) → A → Requests O → Setup O (Result A BusError) → Type 0
FollowedBy cs a o p = Follows cs a (trace o [] p) (result o [] p)

-- The DLQ of the options, else that of the bus.
abbrev pub with_bus_dlq : {S : Type 0} → EventBus S → SubscribeOptions → SubscribeOptions
with_bus_dlq bus opts = record opts {
  dlq = elim opts.dlq [
    | some own ↦ some own
    | none ↦ elim bus.dlq [ none ↦ none | some config ↦ some (record { config = config }) ]
  ];
}

-- The bus makes sure of the DLQ stream itself, where the DLQ is its own.
abbrev pub bus_script : {O S : Type 0} → EventBus S → SubscribeOptions → List (SetupCall O)
bus_script bus opts =
    elim opts.dlq [
      | some own ↦ []
      | none ↦ elim bus.dlq [ none ↦ [] | some config ↦ dlq_request opts config ∷ [] ]
    ]
    ++ subscribe_script (with_bus_dlq bus opts)

abbrev pub build_script : {O S : Type 0} → O → EventBusBuilder O S → String → List (SetupCall O)
build_script default_connect_options b url =
    connect (elim b.connect_options [ none ↦ default_connect_options | some options ↦ options ]) url
    ∷ get_or_create_stream (stream_spec b.stream_cfg)
    ∷ []

module _ (O M : Type 0) where
  subscribe-Follows :
      (opts : SubscribeOptions)
      → Always
          (Follows (subscribe_script opts) (spawn_task opts))
          (Subscribe.subscribe {O = O} {M = M} opts)
  unfolding Subscribe.subscribe
  subscribe-Follows opts = ground arith

  -- `subscribe` of bus-nats, whatever the server replies: it asks for the stream, then for the durable
  -- consumer with the configured limits, then for the DLQ stream where a DLQ is configured, and for
  -- nothing after a request that fails. It returns a task that starts with all its permits if every
  -- request succeeded, and an error if one failed.
  pub subscribe_follows :
      (opts : SubscribeOptions) (o : Requests O)
      → FollowedBy
          (subscribe_script opts)
          (spawn_task {M = M} opts)
          o
          (Subscribe.subscribe {O = O} opts)
  subscribe_follows opts o =
      Always-run (Follows (subscribe_script opts) (spawn_task opts)) (Subscribe.subscribe opts)
        (subscribe-Follows opts) o []

  bus_subscribe-Follows :
      {S : Type 0} (bus : EventBus S) (opts : SubscribeOptions)
      → Always
          (Follows (bus_script bus opts) (spawn_task (with_bus_dlq bus opts)))
          (subscribe {O = O} {M = M} bus opts)
  unfolding subscribe
  bus_subscribe-Follows bus opts = ground arith

  -- A subscription through the bus, whatever the server replies, runs with the DLQ of its options, else
  -- with that of the bus. In the second case the DLQ stream is asked for before all else, and again at
  -- the end. The requests stop at the first that fails, which makes the call fail; else it returns.
  pub bus_subscribe_follows :
      {S : Type 0} (bus : EventBus S) (opts : SubscribeOptions) (o : Requests O)
      → FollowedBy
          (bus_script bus opts)
          (spawn_task {M = M} (with_bus_dlq bus opts))
          o
          (subscribe {O = O} bus opts)
  bus_subscribe_follows bus opts o =
      Always-run (Follows (bus_script bus opts) (spawn_task (with_bus_dlq bus opts)))
        (subscribe bus opts) (bus_subscribe-Follows bus opts) o []

module _ {O S : Type 0} (default_connect_options : O) (b : EventBusBuilder O S) where
  -- What `build` does: nothing but return an error where the URL or the store is missing.
  abbrev pub Builds :
      Option String
      → Option S
      → List (Event (SetupCall O) SetupReply)
      → Result (EventBus S) BusError
      → Type 0
  Builds (some url) (some store) t r =
      Follows (build_script default_connect_options b url)
        (record { idempotency = store; dlq = b.dlq }) t r
  Builds _ _ t r = (t ≡ []) × (is_ok r ≡ false)

  build-Builds : Always (Builds b.url b.idempotency) (build default_connect_options b)
  unfolding build
  build-Builds = ground arith

  -- `build` connects, with the given options or else the default ones, then asks for the events stream
  -- as configured, and returns a bus with the given store and DLQ if and only if both succeed. Without a
  -- URL or without a store it fails and asks the server for nothing.
  pub build_follows :
      (o : Requests O)
      → Builds b.url b.idempotency
          (trace o [] (build default_connect_options b))
          (result o [] (build default_connect_options b))
  build_follows o =
      Always-run (Builds b.url b.idempotency) (build default_connect_options b) build-Builds o []
