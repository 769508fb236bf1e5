-- ===== src/Core/Handler.antt =====
-- crates/bus-core/src/handler.rs. The tracing span of a context is left out.
use eventbus_rs.Prelude.{ℕ, String}
use eventbus_rs.Core.Id.{MessageId}

pub record HandlerCtx : Type 0 where
  pub msg_id : MessageId
  pub stream_seq : ℕ  -- u64
  pub delivered : ℕ  -- u64
  pub subject : String
