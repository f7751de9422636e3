-- ===== src/Prelude/Text.antt =====
-- Numbers as text.
use Prim.Native.Nat.{ℕ, zero, suc, ◌+◌, ◌/◌, ◌%◌}
use mathlib.Core.List.{[], ◌∷◌, ◌++◌}
use link_ice.Prelude.Tests.{ltb, if◌then◌else◌}
use link_ice.Prelude.Lists.{Bytes}

-- `std::to_string` and `%u`, on fuel for the digits.
unfoldable pub decimal : ℕ → ℕ → Bytes
decimal zero n = []
decimal (suc fuel) n =
    let front = decimal fuel (n / 10) in
    if ltb n 10 then (48 + n) ∷ [] else front ++ ((48 + n % 10) ∷ [])
