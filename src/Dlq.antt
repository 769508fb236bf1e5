-- ===== src/Dlq.antt =====
-- crates/bus-nats/src/dlq.rs: names, configuration, headers and publishing of dead letters.
pub mod Names
pub mod Config
pub mod Stream
pub mod Headers
pub mod Publish
pub mod Confirmation
pub mod Fields
pub mod Identity
mod Examples
