-- ===== src/Fleet.antt =====
-- Many workers over one idempotency store: the tasks that `subscribe` of
-- crates/bus-nats/src/subscriber.rs spawns, in this process or another, interleaved at every await.
pub mod System
pub mod Budget
pub mod Exclusion
pub mod Orphan
pub mod Accounts
pub mod Backed
pub mod OverRedis
pub mod KvSystem
pub mod KvRules
pub mod KvBudget
pub mod KvExclusion
pub mod KvMisses
pub mod OverKv
mod Examples
