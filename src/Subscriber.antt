-- ===== src/Subscriber.antt =====
-- crates/bus-nats/src/subscriber.rs: what one delivery of a message does (`Process`), and the proofs
-- about it.
pub mod Options
pub mod Message
pub mod Backoff
pub mod Settle
pub mod Process
pub mod Observe
pub mod Outcome
pub mod Schedule
pub mod Loop
pub mod Handle
pub mod Letters
pub mod Routing
pub mod Discipline
pub mod Subscribe
mod Examples
