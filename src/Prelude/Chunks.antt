-- ===== src/Prelude/Chunks.antt =====
-- `slice::chunks`, and the chunks put together again.
use Prim.Native.Nat.{ℕ, zero, suc, ◌≤◌, ◌<◌}
use mathlib.Core.Path.{◌≡◌, refl, sym, ap, ◌∙◌}
use mathlib.Core.Logic.{inl, inr}
use mathlib.Core.Option.{none, some}
use mathlib.Core.List.{List, [], ◌∷◌, ◌++◌, append-nil}
use native.Mathlib.Omega.{arith}
use cce.Prelude.Tests.{if◌then◌else◌, Option-cases}
use cce.Prelude.Lists.{length, length-append}
use cce.Prelude.Trim.{is_empty}
use cce.Prelude.Bytes.{split_at_checked, split_at_checked-some}

-- `slice::chunks` of a positive width: the last chunk may be shorter.
unfoldable pub batches : {A : Type 0} → ℕ → ℕ → List A → List (List A)
batches zero width xs = []
batches (suc fuel) width xs = elim (split_at_checked width xs) [
  | none ↦ if is_empty xs then [] else xs ∷ []
  | some (front, back) ↦ if is_empty xs then [] else front ∷ batches fuel width back
]

unfoldable pub concat : {A : Type 0} → List (List A) → List A
concat [] = []
concat (xs ∷ xss) = xs ++ concat xss

-- The batches are all of the list, in order.
pub concat-batches :
    {A : Type 0} (fuel width : ℕ) (xs : List A)
    → length xs ≤ fuel
    → 0 < width
    → concat (batches fuel width xs) ≡ xs
unfolding concat batches
concat-batches zero width [] f w = refl
concat-batches zero width (x ∷ xs) f w = absurd (omega arith)
concat-batches {A = A} (suc fuel) width [] f w =
    elim (Option-cases (split_at_checked {A = A} width [])) [
      | inl e ↦ rw (e, batches) refl
      | inr (p, e) ↦ rw (e, batches) refl
    ]
concat-batches (suc fuel) width (x ∷ xs) f w =
    elim (Option-cases (split_at_checked width (x ∷ xs))) [
      | inl e ↦ rw (e, batches) (ap (λ ys. x ∷ ys) (append-nil xs))
      | inr ((front, back), e) ↦
          let (whole, size) = split_at_checked-some width (x ∷ xs) front back e in
          rw (e, batches)
            (ap (λ ys. front ++ ys)
                (concat-batches fuel width back
                  (omega (arith, ap length whole, length-append front back)) w)
              ∙ sym whole)
    ]
