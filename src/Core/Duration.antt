-- ===== src/Core/Duration.antt =====
-- `std::time::Duration`, in nanoseconds.
use eventbus_rs.Prelude.{ℕ, ◌*◌, ◌/◌, ◌^◌}

abbrev pub Duration : Type 0
Duration = ℕ

abbrev pub from_secs : ℕ → Duration
from_secs s = s * 10 ^ 9

abbrev pub from_millis : ℕ → Duration
from_millis m = m * 10 ^ 6

abbrev pub as_millis : Duration → ℕ
as_millis d = d / 10 ^ 6
