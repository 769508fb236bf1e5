-- ===== src/Core/Error.antt =====
-- crates/bus-core/src/error.rs. An error of serde_json is its printed text.
use Prim.Native.String.{String}
use mathlib.Core.List.{[], ◌∷◌}
use eventbus_rs.Prelude.Text.{format}

pub data HandlerError : Type 0 where
  transient : String → HandlerError
  permanent : String → HandlerError

pub data BusError : Type 0 where
  nats publish idempotency serde : String → BusError
  handler : HandlerError → BusError

-- The texts of the `#[error(...)]` attributes.
unfoldable pub show_handler_error : HandlerError → String
show_handler_error (transient reason) = format ("transient: " ∷ reason ∷ [])
show_handler_error (permanent reason) = format ("permanent: " ∷ reason ∷ [])

unfoldable pub show_error : BusError → String
unfolding show_handler_error
show_error (nats reason) = format ("nats: " ∷ reason ∷ [])
show_error (publish reason) = format ("publish: " ∷ reason ∷ [])
show_error (idempotency reason) = format ("idempotency: " ∷ reason ∷ [])
show_error (serde reason) = format ("serialization: " ∷ reason ∷ [])
show_error (handler e) = format ("handler: " ∷ show_handler_error e ∷ [])
