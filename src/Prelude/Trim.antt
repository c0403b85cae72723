-- ===== src/Prelude/Trim.antt =====
-- `trim_start_matches`, `trim_end_matches` and `starts_with` of `str`.
use Prim.Native.Nat.{ℕ}
use mathlib.Core.Path.{◌≡◌, refl}
use mathlib.Core.Logic.{inl, inr}
use mathlib.Core.Bool.{Bool, true, false, ◌&&◌}
use mathlib.Core.List.{List, [], ◌∷◌}
use native.Mathlib.Omega.{arith}
use cce.Prelude.Tests.{◌==◌, nat_eq, if◌then◌else◌, Bool-cases}
use cce.Prelude.Lists.{All}
use cce.Prelude.Strings.{Text}

abbrev pub is_empty {ℓ} : {A : Type ℓ} → List A → Bool
is_empty [] = true
is_empty (_ ∷ _) = false

unfoldable pub starts_with : Text → Text → Bool
starts_with [] s = true
starts_with (c ∷ p) [] = false
starts_with (c ∷ p) (d ∷ s) = c == d && starts_with p s

unfoldable pub trim_start : ℕ → Text → Text
trim_start d [] = []
trim_start d (c ∷ s) = let rest = trim_start d s in if c == d then rest else c ∷ s

unfoldable pub trim_end : ℕ → Text → Text
trim_end d [] = []
trim_end d (c ∷ s) = let rest = trim_end d s in if c == d && is_empty rest then [] else c ∷ rest

-- `trim_matches(d)`.
abbrev pub trim : ℕ → Text → Text
trim d s = trim_end d (trim_start d s)

-- The text does not begin, and does not end, with `d`.
abbrev pub Starts : ℕ → Text → Type 0
Starts d [] = Unit
Starts d (c ∷ s) = (c == d) ≡ false

abbrev pub Ends : ℕ → Text → Type 0
Ends d [] = Unit
Ends d (c ∷ []) = (c == d) ≡ false
Ends d (_ ∷ c ∷ s) = Ends d (c ∷ s)

pub trim_start-Starts : (d : ℕ) (s : Text) → Starts d (trim_start d s)
unfolding trim_start
trim_start-Starts d [] = tt
trim_start-Starts d (c ∷ s) = elim (Bool-cases (c == d)) [
  | inl same ↦ rw same (trim_start-Starts d s)
  | inr other ↦ rw other other
]

pub trim_end-Starts : (d : ℕ) (s : Text) → Starts d s → Starts d (trim_end d s)
unfolding trim_end
trim_end-Starts d [] h = tt
trim_end-Starts d (c ∷ s) h = rw (h, h)

Ends-cons : (d c : ℕ) (s : Text) → (c == d && is_empty s) ≡ false → Ends d s → Ends d (c ∷ s)
Ends-cons d c [] h e = ground arith
Ends-cons d c (x ∷ s) h e = e

pub trim_end-Ends : (d : ℕ) (s : Text) → Ends d (trim_end d s)
unfolding trim_end
trim_end-Ends d [] = tt
trim_end-Ends d (c ∷ s) = elim (Bool-cases (c == d && is_empty (trim_end d s))) [
  | inl gone ↦ rw gone tt
  | inr stays ↦ rw stays (Ends-cons d c (trim_end d s) stays (trim_end-Ends d s))
]

pub trim_start_of_Starts : (d : ℕ) (s : Text) → Starts d s → trim_start d s ≡ s
unfolding trim_start
trim_start_of_Starts d [] h = refl
trim_start_of_Starts d (c ∷ s) h = rw h refl

pub trim_end_of_Ends : (d : ℕ) (s : Text) → Ends d s → trim_end d s ≡ s
unfolding trim_end
trim_end_of_Ends d [] h = refl
trim_end_of_Ends d (c ∷ []) h = rw h refl
trim_end_of_Ends d (c ∷ x ∷ s) h = ground (arith, trim_end_of_Ends d (x ∷ s) h)

pub All-trim_start {κ} : (P : ℕ → Type κ) (d : ℕ) (s : Text) → All P s → All P (trim_start d s)
unfolding trim_start
All-trim_start P d [] h = tt
All-trim_start P d (c ∷ s) (h, hs) = elim (Bool-cases (c == d)) [
  | inl same ↦ rw same (All-trim_start P d s hs)
  | inr other ↦ rw other (h, hs)
]

pub All-trim_end {κ} : (P : ℕ → Type κ) (d : ℕ) (s : Text) → All P s → All P (trim_end d s)
unfolding trim_end
All-trim_end P d [] h = tt
All-trim_end P d (c ∷ s) (h, hs) = elim (Bool-cases (c == d && is_empty (trim_end d s))) [
  | inl gone ↦ rw gone tt
  | inr stays ↦ rw stays (h, All-trim_end P d s hs)
]
