-- ===== src/Lib.antt =====
-- A verification library of eventbus-rs, a typed async event bus on NATS JetStream: an idempotent
-- inbox, acknowledgements and a dead-letter queue (DLQ) around the application's handler.
--
-- How the parts interact: an application builds an `EventBus` (Bus.Builder), which connects and makes
-- sure of the events stream (Client). It publishes events under their ids (Publisher). `subscribe`
-- (Bus, Subscriber.Subscribe) makes sure of the consumer and of the DLQ stream, and spawns a task
-- (Subscriber.Loop) that gives each message to a worker under a permit. A worker runs
-- `process_message` (Subscriber.Process): it claims the message's id in the store (Inbox), decodes
-- the event, calls the handler, and then closes the claim and answers JetStream, after a dead letter
-- (Dlq) if the failure is final. Any number of workers share the store (Fleet); those of one
-- subscription and its task are one system (Subscription), and JetStream delivers a message again
-- until it has an answer that ends it (Redelivery). Any number of subscriptions over one store are a
-- deployment (Deployment). The programs of examples/ put the parts together (Apps).
--
-- Async code is a tree of the calls that it awaits (Effect: `Proc`, a call and what is done with the
-- reply); a run is the tree against an oracle that answers each call from the history
-- (Effect.Traces). So a theorem for every oracle is one for every behaviour of the store, the
-- handler, JetStream and the clock, failures included. Long-lived tasks are machines that step on
-- what happens at their awaits (Subscriber.Loop, Advisory). Workers interleave by a step relation
-- (Fleet.System): a delivery, one call with any reply that the store's contract allows, a stop at any
-- await, or the expiry of a key. The store behind the workers is an interface (Inbox.Interface):
-- a backend's own states and operations, and the proof that they keep the trait's promise.
-- Inbox.Redis.Backend fills it, Fleet.Backed puts workers over any backend and Deployment whole
-- subscriptions, and Fleet.OverRedis and Deployment.OverRedis join them. A claim on NATS KV is two
-- requests, so Fleet.KvSystem interleaves the workers request by request instead: KvRules says what a
-- worker may ask for in each phase, KvBudget and KvMisses count its claims, and KvExclusion and OverKv
-- are what holds of the handler and what does not.
--
-- Which file models which code:
--   Core.*                    crates/bus-core/src/{error,id,idempotency,handler}.rs; the store's
--                             promise is what each call may do to the marks of all ids
--                             (Core.Idempotency: Claims, MarksDone, Releases)
--   Publisher.*               crates/bus-nats/src/publisher.rs and crates/bus-core/src/publisher.rs,
--                             event.rs; publish_event is `publish`, publish_from the batch's loop
--   Ack                       crates/bus-nats/src/ack.rs
--   Dlq.*                     crates/bus-nats/src/dlq.rs
--   Client, Jetstream         crates/bus-nats/src/client.rs, stream.rs, and the requests to JetStream
--   Inbox.Redis, Inbox.NatsKv crates/bus-nats/src/inbox/redis.rs, nats_kv.rs
--   Subscriber.Options        crates/bus-nats/src/consumer.rs and the options of subscriber.rs
--   Subscriber.{Message, Backoff, Settle, Process}
--                             crates/bus-nats/src/subscriber.rs from process_message on; after_claim,
--                             dispatch, settle and after_publish are its nested matches, in order
--   Subscriber.{Subscribe, Loop, Handle}
--                             `subscribe`, the task that it spawns, and SubscriptionHandle there
--   Subscription              that task together with its workers, whose number and whose messages the
--                             loop keeps; the system interleaves them call by call. Its promise is
--                             Subscription.Ledger, on multisets of messages, which Subscription.Refines
--                             shows it to keep
--   Deployment                any number of those systems over one store, as `subscribe` of
--                             crates/event-bus/src/bus.rs gives them the store of their bus. Its state also logs the
--                             successes, and what the workers give up and bury (Deployment.Accounts,
--                             Letters); NoLoss is what these logs say of an answer
--   Redelivery                process_message for every delivery of one message, in order: JetStream
--                             delivers at most `max_deliver` times, and any answer may be lost;
--                             Redelivery.Published starts from a run of `publish`. The store may fail
--                             in any delivery, but drops no key; where a theorem needs a store that
--                             does not fail, it says so
--   Apps                      examples/01-basic-publish, examples/03-idempotent-handler
--   Advisory                  crates/bus-nats/src/advisory.rs
--   Bus, Bus.Builder          crates/event-bus/src/bus.rs, builder.rs
--   Derive, Derive.Template   crates/bus-macros/src/event.rs
--   Calls                     the calls that the consume path awaits
--   Prelude.*                 numbers, lists, results and the parts of Rust's std that the code uses
-- The other children of a module are proofs about it, named for what they prove; Samples and the
-- modules Examples have concrete instances and runs.
--
-- Conventions: a duration is a number of nanoseconds, and its arithmetic does not overflow. `u64` and
-- `usize` values are natural numbers, printed with 20 digits at most, which is enough below 2 ^ 64;
-- `as u64` of a negative `i64` wraps. An error of a library is its printed text. The loop of
-- build_subject_expression runs on fuel, one round for each character of the template and one more;
-- every round takes a character off, and no template runs out of it. The concurrency of a subscription
-- is at most tokio's Semaphore::MAX_PERMITS, above which `subscribe` panics.
--
-- Parameters, with what is relied on as hypotheses: uuid (`Readable`: a UUID is read back from its
-- print), async-nats' header map (`HeaderLaws`, and `Carries` for the wire), serde_json (`Decodes`), syn's
-- identifier parser, and the commands of Redis and of the NATS key-value store (their contracts stand
-- in Inbox.Redis.Contract and Inbox.NatsKv.Promise).
--
-- Not modelled: tracing and logging (but for the advisory logger, whose purpose it is), the order and
-- the timing of JetStream's redeliveries beyond one message, when a key expires (any step may), how
-- `MessageId::new` draws a UUIDv7 from the clock (its result is a reply), and spans and error texts of
-- the macro. Re-exports have no logic.
pub mod Prelude
pub mod Core
pub mod Effect
pub mod Calls
pub mod Ack
pub mod Dlq
pub mod Inbox
pub mod Subscriber
pub mod Fleet
pub mod Redelivery
pub mod Subscription
pub mod Jetstream
pub mod Client
pub mod Publisher
pub mod Apps
pub mod Bus
pub mod Advisory
pub mod Deployment
pub mod Derive
mod Samples
