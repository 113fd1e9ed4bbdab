-- ===== src/Base/Decimal.antt =====
-- `Display` of an unsigned integer: its decimal digits.
use Prim.Native.Nat.{ℕ, zero, suc, ◌+◌, ◌/◌, ◌%◌}
use mathlib.Core.Bool.{true, false}
use mathlib.Core.List.{[], ◌∷◌, ◌++◌}
use foundrix.Base.Tests.{ltb}
use foundrix.Base.Texts.{Text}

-- `n` has at most `n + 1` digits, so that the fuel is enough.
unfoldable pub decimal_digits : ℕ → ℕ → Text
decimal_digits zero n = []
decimal_digits (suc fuel) n = elim (ltb n 10) [
  | true ↦ (b'0' + n) ∷ []
  | false ↦ decimal_digits fuel (n / 10) ++ (b'0' + n % 10) ∷ []
]

unfoldable pub decimal : ℕ → Text
unfolding decimal_digits
decimal n = decimal_digits (suc n) n
