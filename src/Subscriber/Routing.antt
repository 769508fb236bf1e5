-- ===== src/Subscriber/Routing.antt =====
-- The dead letters of a subscription and the stream that its set-up asks JetStream for. Where a stream
-- of that name exists already, JetStream keeps it as it is (Dlq.Identity).
use eventbus_rs.Prelude.{◌≡◌, arith, String, some, ok, List, [], ◌∷◌}
use eventbus_rs.Calls.{Call, Reply, Bytes}
use eventbus_rs.Effect.Traces.{Event, Oracle, trace, result}
use eventbus_rs.Jetstream.{StreamSpec, SetupCall, SetupReply, get_or_create_stream}
use eventbus_rs.Dlq.Config.{DlqOptions, dlq_stream_name, dlq_subject}
use eventbus_rs.Dlq.Stream.{dlq_stream_spec}
use eventbus_rs.Subscriber.Options.{SubscribeOptions}
use eventbus_rs.Subscriber.Message.{Message, Sdk}
use eventbus_rs.Subscriber.Observe.{letters}
use eventbus_rs.Subscriber.Process.{process_message}
use eventbus_rs.Subscriber.Subscribe.{Subscription, subscribe}

-- The streams that a set-up has asked for.
abbrev pub asked_for : {O : Type 0} → List (Event (SetupCall O) SetupReply) → List StreamSpec
asked_for [] = []
asked_for ((get_or_create_stream spec, r) ∷ t) = spec ∷ asked_for t
asked_for ((c, r) ∷ t) = asked_for t

-- Each of these letters has the subject that is the only one of the stream asked for.
abbrev pub Addressed : {H : Type 0} → StreamSpec → List (String × H × Bytes) → Type 0
Addressed spec [] = Unit
Addressed spec ((subject, headers, payload) ∷ l) = (spec.subjects ≡ subject ∷ []) × Addressed spec l

module _ {E H O M : Type 0} (sdk : Sdk E H) (opts : SubscribeOptions) where
  -- Where `subscribe` with a DLQ succeeds, it has asked JetStream for exactly one stream, and whatever a
  -- worker of the subscription does afterwards, each dead letter that it writes has the one subject that
  -- this request lists.
  pub letters-Addressed :
      (dlq : DlqOptions) (setup : Oracle (SetupCall O) SetupReply) (sub : Subscription M)
      (msg : Message H) (o : Oracle (Call E H) Reply)
      → opts.dlq ≡ some dlq
      → result setup [] (subscribe opts) ≡ ok sub
      → (spec : StreamSpec) × (asked_for (trace setup [] (subscribe {O = O} {M = M} opts))
          ≡ spec ∷ [])
        × Addressed spec (letters (trace o [] (process_message sdk sub.processing msg)))
  unfolding trace result process_message subscribe dlq_stream_spec
  letters-Addressed dlq setup sub msg o e s =
      let spec : StreamSpec =
        dlq_stream_spec (dlq_stream_name opts.stream opts.durable)
          (dlq_subject opts.stream opts.durable) dlq.config in
      (spec, ground (arith, e, s), ground (arith, e, s))
