-- ===== src/Base/Decimal.antt =====
-- Numbers as Python prints them.
use Prim.Native.Nat.{ℕ, zero, suc, ◌+◌, ◌/◌, ◌%◌}
use mathlib.Core.Bool.{true, false}
use mathlib.Core.List.{[], ◌∷◌}
use ephi.Base.Tests.{ltb}
use ephi.Base.Text.{Text}

-- `str(n)`: the digits of a number, before what follows them.
unfoldable pub digits_onto : ℕ → ℕ → Text → Text
digits_onto zero n rest = rest
digits_onto (suc fuel) n rest =
    let shown = (48 + n % 10) ∷ rest in
    elim (ltb n 10) [ true ↦ shown | false ↦ digits_onto fuel (n / 10) shown ]

abbrev pub decimal : ℕ → Text
decimal n = digits_onto (suc n) n []
