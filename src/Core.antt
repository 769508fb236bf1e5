-- ===== src/Core.antt =====
-- crates/bus-core/src: the types that every other crate shares.
pub mod Duration
pub mod Error
pub mod Id
pub mod Idempotency
pub mod Handler
