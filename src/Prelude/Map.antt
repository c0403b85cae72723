-- ===== src/Prelude/Map.antt =====
-- `HashMap`: an association list in which no key stands twice. Where the code depends on the order
-- of iteration, that order is an argument of the definition.
use mathlib.Core.Path.{◌≡◌, subst₂}
use mathlib.Core.Bool.{Bool, true, false}
use mathlib.Core.Logic.{inl, inr}
use Prim.Native.Nat.{◌+◌, ◌≤◌}
use cce.Prelude.Lists.{length}
use mathlib.Core.Option.{Option, none, some}
use mathlib.Core.List.{List, [], ◌∷◌}
use native.Mathlib.Omega.{arith}
use cce.Prelude.Tests.{Eq, ◌==◌, if◌then◌else◌, eq_iff, Bool-cases}

module _ {ℓ κ} {K : Type ℓ} {V : Type κ} ⦃e : Eq K⦄ where
  unfoldable pub lookup : K → List (K × V) → Option V
  lookup k [] = none
  lookup k ((j, v) ∷ m) = if j == k then some v else lookup k m

  -- `HashMap::remove`.
  unfoldable pub remove : K → List (K × V) → List (K × V)
  remove k [] = []
  remove k ((j, w) ∷ m) = let rest = remove k m in if j == k then rest else (j, w) ∷ rest

  -- The new entry takes the place of the old one of its key.
  unfoldable pub insert : K → V → List (K × V) → List (K × V)
  unfolding remove
  insert k v m = (k, v) ∷ remove k m

  pub lookup-remove :
      (k j : K) (m : List (K × V)) → lookup j (remove k m) ≡ (if k == j then none else lookup j m)
  unfolding lookup remove
  lookup-remove k j [] = ground arith
  lookup-remove k j ((i, w) ∷ m) =
      ground (arith, eq_iff k j, eq_iff i k, eq_iff i j, lookup-remove k j m)

  pub lookup-insert :
      (k j : K) (v : V) (m : List (K × V))
      → lookup j (insert k v m) ≡ (if k == j then some v else lookup j m)
  unfolding insert lookup
  lookup-insert k j v m = ground (arith, lookup-remove k j m)

  -- `HashMap::retain`.
  unfoldable pub retain : (K → V → Bool) → List (K × V) → List (K × V)
  retain p [] = []
  retain p ((j, w) ∷ m) = let rest = retain p m in if p j w then (j, w) ∷ rest else rest

  -- What holds of every entry.
  abbrev pub Every {ι} : (K → V → Type ι) → List (K × V) → Type ι
  Every P [] = Unit
  Every P ((j, w) ∷ m) = P j w × Every P m

  length-remove-le : (k : K) (m : List (K × V)) → length (remove k m) ≤ length m
  unfolding remove
  length-remove-le k [] = omega arith
  length-remove-le k ((j, w) ∷ m) = ground (arith, length-remove-le k m)

  pub length-insert-le : (k : K) (v : V) (m : List (K × V)) → length (insert k v m) ≤ length m + 1
  unfolding insert
  length-insert-le k v m = omega (arith, length-remove-le k m)

  pub length-retain-le : (p : K → V → Bool) (m : List (K × V)) → length (retain p m) ≤ length m
  unfolding retain
  length-retain-le p [] = omega arith
  length-retain-le p ((j, w) ∷ m) = ground (arith, length-retain-le p m)

  -- A sweep that looks at the key alone.
  pub lookup-retain_key :
      (p : K → Bool) (j : K) (m : List (K × V))
      → lookup j (retain (λ k _. p k) m) ≡ (if p j then lookup j m else none)
  unfolding lookup retain
  lookup-retain_key p j [] = ground arith
  lookup-retain_key p j ((i, w) ∷ m) = ground (arith, eq_iff i j, lookup-retain_key p j m)

  pub Every-lookup {ι} :
      (P : K → V → Type ι) (k : K) (v : V) (m : List (K × V))
      → Every P m
      → lookup k m ≡ some v
      → P k v
  unfolding lookup
  Every-lookup P k v [] h e = absurd (cc)
  Every-lookup P k v ((j, w) ∷ m) (h, hs) e = elim (Bool-cases (j == k)) [
    | inl same ↦ subst₂ P ((eq_iff j k).0 same) (ground (arith, same)) h
    | inr other ↦ Every-lookup P k v m hs (ground (arith, other))
  ]

  pub Every-retain {ι ι'} :
      (P : K → V → Type ι) (Q : K → V → Type ι') (p : K → V → Bool) (m : List (K × V))
      → ((k : K) (v : V) → p k v ≡ true → P k v → Q k v)
      → Every P m
      → Every Q (retain p m)
  unfolding retain
  Every-retain P Q p [] f h = tt
  Every-retain P Q p ((j, w) ∷ m) f (h, hs) = elim (Bool-cases (p j w)) [
    | inl kept ↦ rw kept (f j w kept h, Every-retain P Q p m f hs)
    | inr dropped ↦ rw dropped (Every-retain P Q p m f hs)
  ]

  pub Every-remove {ι ι'} :
      (P : K → V → Type ι) (Q : K → V → Type ι') (k : K) (m : List (K × V))
      → ((j : K) (w : V) → (k == j) ≡ false → P j w → Q j w)
      → Every P m
      → Every Q (remove k m)
  unfolding remove
  Every-remove P Q k [] f h = tt
  Every-remove P Q k ((j, w) ∷ m) f (h, hs) = elim (Bool-cases (j == k)) [
    | inl same ↦ rw same (Every-remove P Q k m f hs)
    | inr other ↦
        rw other (f j w (ground (arith, eq_iff j k, eq_iff k j)) h, Every-remove P Q k m f hs)
  ]

  -- `P` may fail at the key that is overwritten.
  pub Every-insert {ι ι'} :
      (P : K → V → Type ι) (Q : K → V → Type ι') (k : K) (v : V) (m : List (K × V))
      → ((j : K) (w : V) → (k == j) ≡ false → P j w → Q j w)
      → Q k v
      → Every P m
      → Every Q (insert k v m)
  unfolding insert
  Every-insert P Q k v m f q h = (q, Every-remove P Q k m f h)
