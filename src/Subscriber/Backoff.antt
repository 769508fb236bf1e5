-- ===== src/Subscriber/Backoff.antt =====
-- `compute_backoff` of crates/bus-nats/src/subscriber.rs.
use eventbus_rs.Prelude.{◌-◌, List, [], ◌∷◌, min, length}
use eventbus_rs.Prelude.Int.{ℤ, as_u64}
use eventbus_rs.Prelude.{get_or}
use eventbus_rs.Core.Duration.{Duration}
use eventbus_rs.Dlq.Config.{fallback_nak_delay}

-- `backoff[index]` of a list that is not empty; `index` is in range, and is proved so.
unfoldable pub compute_backoff : List Duration → ℤ → Duration
compute_backoff [] attempt = fallback_nak_delay
compute_backoff (b ∷ bs) attempt =
    let index = min (as_u64 attempt - 1) (length (b ∷ bs) - 1) in
    get_or (b ∷ bs) index fallback_nak_delay
