-- ===== src/Inbox.antt =====
-- crates/bus-nats/src/inbox: the two idempotency stores. Each method is a tree of calls of its server.
pub mod Interface
pub mod Redis
pub mod NatsKv
mod Examples
