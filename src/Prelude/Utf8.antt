-- ===== src/Prelude/Utf8.antt =====
-- `str::len`: the number of bytes of the UTF-8 encoding.
pub mod Encoding
use Prim.Native.Nat.{ℕ, ◌+◌}
use mathlib.Core.List.{[], ◌∷◌}
use cce.Prelude.Tests.{ltb, if◌then◌else◌}
use cce.Prelude.Strings.{Text}

abbrev pub utf8_width : ℕ → ℕ
utf8_width c = if ltb c 128 then 1 else if ltb c 2048 then 2 else if ltb c 65536 then 3 else 4

abbrev pub byte_len : Text → ℕ
byte_len [] = 0
byte_len (c ∷ s) = utf8_width c + byte_len s
