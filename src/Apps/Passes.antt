-- ===== src/Apps/Passes.antt =====
-- When the programs of examples/ run through.
use eventbus_rs.Prelude.{
  ℕ, ◌≡◌, arith, String, Bool, true, false, not, ◌&&◌, ◌||◌, Option, some, List, [], ◌∷◌, ◌==◌,
  Result, ok, err, if◌then◌else◌, str_eq, eq_iff,
}
use eventbus_rs.Core.Id.{UuidApi, show_id}
use eventbus_rs.Calls.{Bytes}
use eventbus_rs.Dlq.Headers.{HeaderApi, HeaderLaws}
use eventbus_rs.Effect.Traces.{Event, Oracle, trace, result}
use eventbus_rs.Inbox.NatsKv.{KvCall, KvReply, create_key_value, create, put, get, purge}
use eventbus_rs.Publisher.{publish_with_headers, ack_future, publish_event, event_headers}
use eventbus_rs.Apps.{
  AppCall, AppReply, on_server, on_bucket, on_stream, subscribe_advisories, load_count, returned,
  panicked,
}
use eventbus_rs.Apps.BasicPublish.{OrderCreated, with_event, main}
use eventbus_rs.Bus.{EventBus, publish, shutdown}
use eventbus_rs.Apps.IdempotentHandler.{PaymentProcessed}
use eventbus_rs.Apps.IdempotentHandler

abbrev pub AppRun : Type 0 → Type 0 → Type 0
AppRun O H = List (Event (AppCall O H) AppReply)

abbrev pub is_ok {ℓ κ} : {A : Type ℓ} {B : Type κ} → Result A B → Bool
is_ok (ok a) = true
is_ok (err e) = false

abbrev pub same_id : Option String → Option String → Bool
same_id (some a) (some b) = str_eq a b
same_id _ _ = false

abbrev pub published_before : Option String → List (Option String) → Bool
published_before id [] = false
published_before id (j ∷ js) = same_id id j || published_before id js

-- The flag of an ack, for the last publish of these ids, the last one first.
abbrev pub repeats : List (Option String) → Bool
repeats [] = false
repeats (id ∷ ids) = published_before id ids

abbrev pub same_bool : Bool → Bool → Bool
same_bool true b = b
same_bool false b = not b

abbrev pub bucket_ok : (c : KvCall) → KvReply c → Bool
bucket_ok (create_key_value cfg) r = is_ok r
bucket_ok (create key value) r = is_ok r
bucket_ok (put key value) r = is_ok r
bucket_ok (get key) r = is_ok r
bucket_ok (purge key) r = is_ok r

module _ {O H : Type 0} where
  -- Every request of the run succeeded.
  abbrev pub succeeded : AppRun O H → Bool
  succeeded [] = true
  succeeded ((on_server c, r) ∷ t) = is_ok r && succeeded t
  succeeded ((on_bucket c, r) ∷ t) = bucket_ok c r && succeeded t
  succeeded ((on_stream (publish_with_headers subject h payload), r) ∷ t) = is_ok r && succeeded t
  succeeded ((on_stream ack_future, r) ∷ t) = is_ok r && succeeded t
  succeeded ((subscribe_advisories filter, r) ∷ t) = is_ok r && succeeded t
  succeeded (e ∷ t) = succeeded t

  -- What the program has read from the handler's counter, at the first time.
  abbrev pub loaded : AppRun O H → ℕ
  loaded [] = 0
  loaded ((load_count, n) ∷ t) = n
  loaded (e ∷ t) = loaded t

module _ {O H : Type 0} (headers : HeaderApi H) where
  -- JetStream acknowledges a message as a duplicate exactly if one with its `Nats-Msg-Id` has been
  -- published before in the run.
  abbrev pub deduplicated : List (Option String) → AppRun O H → Bool
  deduplicated ids [] = true
  deduplicated ids ((on_stream (publish_with_headers subject h payload), r) ∷ t) =
      deduplicated (headers.get "Nats-Msg-Id" h ∷ ids) t
  deduplicated ids ((on_stream ack_future, ok ack) ∷ t) =
      same_bool ack.duplicate (repeats ids) && deduplicated ids t
  deduplicated ids (e ∷ t) = deduplicated ids t

module _ (O : Type 0) {H : Type 0} (uuids : UuidApi) (headers : HeaderApi H) where
  module _ (laws : HeaderLaws headers) (to_vec : OrderCreated → Result Bytes String)
      (serializes : (e : OrderCreated) → is_ok (to_vec e) ≡ true) where
    with_event-Passes :
        (o : Oracle (AppCall O H) AppReply) (h : AppRun O H) (bus : EventBus (Unit {0}))
        (evt : OrderCreated)
        → let t = trace o h (with_event uuids headers to_vec bus evt) in
          (succeeded t ≡ true)
          → deduplicated headers [] t ≡ true
          → result o h (with_event uuids headers to_vec bus evt) ≡ returned
    unfolding trace result with_event publish shutdown show_id publish_event event_headers
    with_event-Passes o h bus evt s d = ground (
      arith,
      serializes evt,
      laws.get-insert "Nats-Msg-Id" (show_id uuids evt.id) "Nats-Msg-Id" headers.new,
      eq_iff (show_id uuids evt.id) (show_id uuids evt.id),
    )

    -- examples/01-basic-publish, where serde_json serializes the event and async-nats' headers keep
    -- what is inserted: if every request succeeds and JetStream marks exactly the messages as
    -- duplicates whose id it has had, the program returns without an error and both of its assertions
    -- hold: publishing an event twice is recognised by the header that `publish` writes.
    pub main-Passes :
        (o : Oracle (AppCall O H) AppReply) (options : O) (url : String)
        → succeeded (trace o [] (main uuids headers to_vec options url)) ≡ true
        → deduplicated headers [] (trace o [] (main uuids headers to_vec options url)) ≡ true
        → result o [] (main uuids headers to_vec options url) ≡ returned
    unfolding trace result main
    main-Passes o options url s d = grind (arith, with_event-Passes)

  -- examples/03-idempotent-handler: if every request succeeds, the program returns without an error if
  -- the counter has been read as one, and else its assertion fails.
  pub main-Counts :
      (to_vec : PaymentProcessed → Result Bytes String)
      (serializes : (e : PaymentProcessed) → is_ok (to_vec e) ≡ true)
      (o : Oracle (AppCall O H) AppReply) (options : O) (url : String)
      → succeeded (trace o [] (IdempotentHandler.main uuids headers to_vec options url)) ≡ true
      → result o [] (IdempotentHandler.main uuids headers to_vec options url) ≡ (
          if loaded (trace o [] (IdempotentHandler.main uuids headers to_vec options url)) == 1
          then returned
          else panicked)
  unfolding trace result IdempotentHandler.main publish shutdown publish_event
  main-Counts to_vec serializes o options url s = grind arith
