-- ===== src/Prelude/Bytes.antt =====
-- `to_le_bytes` and `from_le_bytes`, and `split_at_checked`. A byte is a number below 256.
use Prim.Native.Nat.{ℕ, zero, suc, ◌+◌, ◌*◌, ◌/◌, ◌%◌, ◌^◌, ◌≤◌, ◌<◌}
use mathlib.Core.Path.{◌≡◌, refl, ap, ap₂}
use mathlib.Core.Option.{Option, none, some}
use mathlib.Core.List.{List, [], ◌∷◌, ◌++◌}
use native.Mathlib.Omega.{arith}
use mathlib.Core.Logic.{inl, inr}
use cce.Prelude.Tests.{Option-cases}
use cce.Prelude.Lists.{All, length}

abbrev pub IsByte : ℕ → Type 0
IsByte b = b < 256

-- The first argument is the number of bytes.
unfoldable pub to_le_bytes : ℕ → ℕ → List ℕ
to_le_bytes zero n = []
to_le_bytes (suc k) n = (n % 256) ∷ to_le_bytes k (n / 256)

unfoldable pub from_le_bytes : List ℕ → ℕ
from_le_bytes [] = 0
from_le_bytes (b ∷ bs) = b + 256 * from_le_bytes bs

unfoldable pub split_at_checked {ℓ} : {A : Type ℓ} → ℕ → List A → Option (List A × List A)
split_at_checked zero xs = some ([], xs)
split_at_checked (suc n) [] = none
split_at_checked (suc n) (x ∷ xs) = elim (split_at_checked n xs) [
  | none ↦ none
  | some (front, back) ↦ some (x ∷ front, back)
]

pub length-to_le_bytes : (k n : ℕ) → length (to_le_bytes k n) ≡ k
unfolding to_le_bytes
length-to_le_bytes zero n = refl
length-to_le_bytes (suc k) n = ap (λ (m : ℕ). suc m) (length-to_le_bytes k (n / 256))

pub from_le_bytes-to_le_bytes : (k n : ℕ) → n < 256 ^ k → from_le_bytes (to_le_bytes k n) ≡ n
unfolding to_le_bytes from_le_bytes
from_le_bytes-to_le_bytes zero n h = omega arith
from_le_bytes-to_le_bytes (suc k) n h =
    omega (arith, from_le_bytes-to_le_bytes k (n / 256) (omega arith))

pub to_le_bytes-from_le_bytes :
    (bs : List ℕ) → All IsByte bs → to_le_bytes (length bs) (from_le_bytes bs) ≡ bs
unfolding to_le_bytes from_le_bytes
to_le_bytes-from_le_bytes [] h = refl
to_le_bytes-from_le_bytes (b ∷ bs) (hb, h) =
    ap₂ (λ (c : ℕ) (cs : List ℕ). c ∷ cs) low (rw high (to_le_bytes-from_le_bytes bs h))
  where
    low : (b + 256 * from_le_bytes bs) % 256 ≡ b
    low = omega arith

    high : (b + 256 * from_le_bytes bs) / 256 ≡ from_le_bytes bs
    high = omega arith

pow_suc : (k : ℕ) → 256 ^ suc k ≡ 256 * 256 ^ k
pow_suc k = omega arith

pub from_le_bytes-lt : (bs : List ℕ) → All IsByte bs → from_le_bytes bs < 256 ^ length bs
unfolding from_le_bytes
from_le_bytes-lt [] h = omega arith
from_le_bytes-lt (b ∷ bs) (hb, h) = omega (arith, pow_suc (length bs), from_le_bytes-lt bs h)

module _ {ℓ} {A : Type ℓ} where
  pub split_at_checked-append :
      (front back : List A) → split_at_checked (length front) (front ++ back) ≡ some (front, back)
  unfolding split_at_checked
  split_at_checked-append [] back = refl
  split_at_checked-append (x ∷ front) back = rw (split_at_checked-append front back) refl

  pub split_at_checked-some :
      (n : ℕ) (xs front back : List A)
      → split_at_checked n xs ≡ some (front, back)
      → (xs ≡ front ++ back) × (length front ≡ n)
  unfolding split_at_checked
  split_at_checked-some zero xs front back h = ground arith
  split_at_checked-some (suc n) [] front back h = cc
  split_at_checked-some (suc n) (x ∷ xs) front back h =
      elim (Option-cases (split_at_checked n xs)) [
        | inl e ↦ cc (rw e at h)
        | inr ((front', back'), e) ↦
            ground (arith, split_at_checked-some n xs front' back' e, rw e at h)
      ]

  pub split_at_checked-none : (n : ℕ) (xs : List A) → split_at_checked n xs ≡ none → length xs < n
  unfolding split_at_checked
  split_at_checked-none zero xs h = cc
  split_at_checked-none (suc n) [] h = omega arith
  split_at_checked-none (suc n) (x ∷ xs) h = elim (Option-cases (split_at_checked n xs)) [
    | inl e ↦ omega (arith, split_at_checked-none n xs e)
    | inr (p, e) ↦ cc (rw e at h)
  ]

  pub split_at_checked_of_le :
      (n : ℕ) (xs : List A)
      → n ≤ length xs
      → (front : List A) × (back : List A) × (split_at_checked n xs ≡ some (front, back))
        × (xs ≡ front ++ back)
        × (length front ≡ n)
  split_at_checked_of_le n xs h = elim (Option-cases (split_at_checked n xs)) [
    | inl e ↦ absurd (omega (arith, split_at_checked-none n xs e))
    | inr ((front, back), e) ↦
        let (p, l) = split_at_checked-some n xs front back e in (front, back, e, p, l)
  ]
