-- ===== src/Prelude/Words.antt =====
-- `char::is_whitespace`, `split_whitespace().next()` and `str::contains`.
use Prim.Native.Nat.{ℕ}
use mathlib.Core.Bool.{Bool, ◌||◌, ◌&&◌}
use mathlib.Core.Option.{Option, none, some}
use mathlib.Core.List.{[], ◌∷◌}
use cce.Prelude.Tests.{◌==◌, nat_eq, if◌then◌else◌, leb}
use cce.Prelude.Strings.{Text}
use cce.Prelude.Trim.{is_empty, starts_with}

abbrev within : ℕ → ℕ → ℕ → Bool
within lo hi c = leb lo c && leb c hi

-- The characters of Unicode's White_Space.
unfoldable pub is_whitespace : ℕ → Bool
is_whitespace c =
    within 9 13 c
    || c == 32
    || c == 133
    || c == 160
    || c == 5760
    || within 8192 8202 c
    || within 8232 8233 c
    || c == 8239
    || c == 8287
    || c == 12288

abbrev word_of : Text → Text
word_of [] = []
word_of (c ∷ s) = let rest = word_of s in if is_whitespace c then [] else c ∷ rest

-- The first word, if there is one.
unfoldable pub first_word : Text → Option Text
first_word [] = none
first_word (c ∷ s) =
    let rest = first_word s in if is_whitespace c then rest else some (word_of (c ∷ s))

-- `str::contains`: the text has this part.
unfoldable pub has_part : Text → Text → Bool
has_part part [] = is_empty part
has_part part (c ∷ s) = starts_with part (c ∷ s) || has_part part s

-- The Unicode tests on characters, whose tables are the standard library's.
pub record Chars : Type 0 where
  pub is_alphanumeric : ℕ → Bool
  pub is_uppercase : ℕ → Bool
  pub is_lowercase : ℕ → Bool
