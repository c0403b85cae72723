-- ===== src/Prelude/Strings.antt =====
-- A Rust string is the list of its code points.
use Prim.Native.Nat.{ℕ, ◌+◌}
use Prim.Native.Char.{code}
use Prim.Native.String.{String}
use mathlib.Core.Path.{◌≡◌, refl}
use mathlib.Core.Logic.{◌↔◌}
use mathlib.Core.Bool.{Bool, true, false, ◌&&◌, ◌||◌}
use mathlib.Core.List.{List, [], ◌∷◌}
use native.Mathlib.Omega.{arith}
use cce.Prelude.Tests.{Eq, ◌==◌, eq_iff, nat_eq, leb, if◌then◌else◌}

abbrev pub Text : Type 0
Text = List ℕ

abbrev pub txt : String → Text
txt String.[] = []
txt (String.◌∷◌ c s) = code c ∷ txt s

module _ {ℓ} {A : Type ℓ} ⦃e : Eq A⦄ where
  unfoldable pub list_beq : List A → List A → Bool
  list_beq [] [] = true
  list_beq (a ∷ s) (b ∷ t) = a == b && list_beq s t
  list_beq _ _ = false

  pub list_beq_iff : (s t : List A) → (list_beq s t ≡ true) ↔ (s ≡ t)
  unfolding list_beq
  list_beq_iff [] [] = (λ h. refl, λ h. refl)
  list_beq_iff (a ∷ s) (b ∷ t) = (
    λ h. ground (arith, eq_iff a b, list_beq_iff s t),
    λ h. ground (arith, eq_iff a b, list_beq_iff s t),
  )
  list_beq_iff _ _ = (λ h. cc, λ h. cc)

  instance abbrev pub list_eq : Eq (List A)
  list_eq = record { beq = list_beq; beq_iff = list_beq_iff }

instance abbrev pub text_eq : Eq Text
text_eq = list_eq

-- `char::is_ascii_digit`, `is_ascii_uppercase`, `is_ascii_lowercase`.
abbrev pub is_ascii_digit : ℕ → Bool
is_ascii_digit c = leb b'0' c && leb c b'9'

abbrev pub is_ascii_uppercase : ℕ → Bool
is_ascii_uppercase c = leb b'A' c && leb c b'Z'

abbrev pub is_ascii_lowercase : ℕ → Bool
is_ascii_lowercase c = leb b'a' c && leb c b'z'

abbrev pub is_ascii_alphanumeric : ℕ → Bool
is_ascii_alphanumeric c = is_ascii_digit c || is_ascii_uppercase c || is_ascii_lowercase c

-- `char::to_ascii_lowercase`.
abbrev pub to_ascii_lowercase : ℕ → ℕ
to_ascii_lowercase c = if is_ascii_uppercase c then c + 32 else c
