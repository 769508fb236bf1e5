-- ===== src/Prelude/Text.antt =====
-- The parts of `std` that the source formats text with: `format!` and `u64::to_string`.
pub mod Decimal
use Prim.Native.Nat.{ℕ, zero, suc, ◌/◌, ◌%◌}
use Prim.Native.String
use Prim.Native.String.{String}
use mathlib.Core.List.{List, [], ◌∷◌}
use eventbus_rs.Prelude.Tests.{ltb, if◌then◌else◌}
use eventbus_rs.Prelude.Lists.{get_or}

-- `format!`: the parts in order.
abbrev pub format : List String → String
format [] = ""
format (s ∷ ss) = String.◌++◌ s (format ss)

abbrev digits : List String
digits = "0" ∷ "1" ∷ "2" ∷ "3" ∷ "4" ∷ "5" ∷ "6" ∷ "7" ∷ "8" ∷ "9" ∷ []

digit : ℕ → String
digit d = get_or digits d ""

-- The decimal digits of a number below 10 ^ fuel.
decimal : ℕ → ℕ → String
decimal zero n = ""
decimal (suc f) n =
    let rest = decimal f (n / 10) in if ltb n 10 then digit n else String.◌++◌ rest (digit (n % 10))

-- `n.to_string()` for a `u64`, which has 20 digits at most.
unfoldable pub to_string : ℕ → String
unfolding decimal digit
to_string n = decimal 20 n
