-- ===== src/Common/Decimal.antt =====
-- Numbers written in decimal (`{n}` of a format string).
use Prim.Native.Nat.{ℕ, zero, suc, ◌+◌, ◌/◌, ◌%◌}
use mathlib.Core.List.{[], ◌∷◌, ◌++◌}
use portcode.Common.Tests.{ltb, if◌then◌else◌}
use portcode.Common.Utf8.{Text}

-- The decimal digits of a number; a number has fewer digits than its value and one more.
unfoldable pub digits : ℕ → ℕ → Text
digits zero n = []
digits (suc fuel) n =
    let rest = digits fuel (n / 10) in
    if ltb n 10 then (b'0' + n) ∷ [] else rest ++ (b'0' + n % 10) ∷ []

abbrev pub decimal : ℕ → Text
decimal n = digits (suc n) n
