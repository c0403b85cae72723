-- ===== src/Prelude/Decimal.antt =====
-- The decimal digits of a number, as `{}` prints it. The number of digits is at most the number
-- plus one, which is the fuel.
use Prim.Native.Nat.{ℕ, zero, suc, ◌+◌, ◌/◌, ◌%◌}
use mathlib.Core.List.{[], ◌∷◌}
use cce.Prelude.Tests.{ltb, if◌then◌else◌}
use cce.Prelude.Strings.{Text}

digits : ℕ → ℕ → Text → Text
digits zero n acc = acc
digits (suc fuel) n acc =
    let acc' = (b'0' + n % 10) ∷ acc in
    let more = digits fuel (n / 10) acc' in if ltb n 10 then acc' else more

unfoldable pub decimal : ℕ → Text
unfolding digits
decimal n = digits (n + 1) n []
