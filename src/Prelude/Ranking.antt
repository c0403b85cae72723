-- ===== src/Prelude/Ranking.antt =====
-- `sort_by` with a comparison: a stable sort, in which `before x y` holds where `x` may stand before
-- `y`.
use Prim.Native.Nat.{ℕ, zero, suc, min}
use mathlib.Core.Path.{◌≡◌, refl, ap}
use mathlib.Core.Bool.{Bool, true, false}
use mathlib.Core.Logic.{inl, inr}
use mathlib.Core.List.{List, [], ◌∷◌, ◌++◌}
use native.Mathlib.Omega.{arith}
use cce.Prelude.Tests.{if◌then◌else◌, Bool-cases}
use cce.Prelude.Lists.{All, length, take, count}

module _ {A : Type 0} (before : A → A → Bool) where
  insert_ranked : A → List A → List A
  insert_ranked x [] = x ∷ []
  insert_ranked x (y ∷ ys) =
      let rest = insert_ranked x ys in if before x y then x ∷ y ∷ ys else y ∷ rest

  unfoldable pub sort_ranked : List A → List A
  unfolding insert_ranked
  sort_ranked [] = []
  sort_ranked (x ∷ xs) = insert_ranked x (sort_ranked xs)

  count-insert_ranked :
      (p : A → Bool) (x : A) (ys : List A) → count p (insert_ranked x ys) ≡ count p (x ∷ ys)
  unfolding insert_ranked
  count-insert_ranked p x [] = refl
  count-insert_ranked p x (y ∷ ys) = ground (arith, count-insert_ranked p x ys)

  -- The sorted list has the same values, each as often.
  pub count-sort_ranked : (p : A → Bool) (xs : List A) → count p (sort_ranked xs) ≡ count p xs
  unfolding sort_ranked
  count-sort_ranked p [] = refl
  count-sort_ranked p (x ∷ xs) =
      ground (arith, count-insert_ranked p x (sort_ranked xs), count-sort_ranked p xs)

  length-insert_ranked : (x : A) (ys : List A) → length (insert_ranked x ys) ≡ suc (length ys)
  unfolding insert_ranked
  length-insert_ranked x [] = refl
  length-insert_ranked x (y ∷ ys) = ground (arith, length-insert_ranked x ys)

  pub length-sort_ranked : (xs : List A) → length (sort_ranked xs) ≡ length xs
  unfolding sort_ranked
  length-sort_ranked [] = refl
  length-sort_ranked (x ∷ xs) =
      omega (arith, length-insert_ranked x (sort_ranked xs), length-sort_ranked xs)

  -- Each value may stand before all that follow it.
  abbrev pub Ranked : List A → Type 0
  Ranked [] = Unit
  Ranked (x ∷ xs) = All (λ y. before x y ≡ true) xs × Ranked xs

  pub record IsRanking : Type 0 where
    pub total : (x y : A) → before x y ≡ false → before y x ≡ true
    pub transitive : (x y z : A) → before x y ≡ true → before y z ≡ true → before x z ≡ true

  module _ (r : IsRanking) where
    All-before :
        (x y : A) (ys : List A)
        → before x y ≡ true
        → All (λ z. before y z ≡ true) ys
        → All (λ z. before x z ≡ true) ys
    All-before x y [] h k = tt
    All-before x y (z ∷ zs) h (k, ks) = (r.transitive x y z h k, All-before x y zs h ks)

    All-insert_ranked :
        (w x : A) (ys : List A)
        → before w x ≡ true
        → All (λ z. before w z ≡ true) ys
        → All (λ z. before w z ≡ true) (insert_ranked x ys)
    unfolding insert_ranked
    All-insert_ranked w x [] h k = (h, tt)
    All-insert_ranked w x (y ∷ ys) h (k, ks) = elim (Bool-cases (before x y)) [
      | inl e ↦ rw e (h, (k, ks))
      | inr e ↦ rw e (k, All-insert_ranked w x ys h ks)
    ]

    Ranked-insert_ranked : (x : A) (ys : List A) → Ranked ys → Ranked (insert_ranked x ys)
    unfolding insert_ranked
    Ranked-insert_ranked x [] h = (tt, tt)
    Ranked-insert_ranked x (y ∷ ys) (h, hs) = elim (Bool-cases (before x y)) [
      | inl e ↦ rw e ((e, All-before x y ys e h), (h, hs))
      | inr e ↦ rw e (All-insert_ranked y x ys (r.total x y e) h, Ranked-insert_ranked x ys hs)
    ]

    pub Ranked-sort_ranked : (xs : List A) → Ranked (sort_ranked xs)
    unfolding sort_ranked
    Ranked-sort_ranked [] = tt
    Ranked-sort_ranked (x ∷ xs) = Ranked-insert_ranked x (sort_ranked xs) (Ranked-sort_ranked xs)

  -- What `truncate` drops.
  abbrev pub drop : ℕ → List A → List A
  drop zero xs = xs
  drop (suc n) [] = []
  drop (suc n) (x ∷ xs) = drop n xs

  pub take-append-drop : (n : ℕ) (xs : List A) → take n xs ++ drop n xs ≡ xs
  take-append-drop zero xs = refl
  take-append-drop (suc n) [] = refl
  take-append-drop (suc n) (x ∷ xs) = ap (λ ys. x ∷ ys) (take-append-drop n xs)

  pub length-take-min : (n : ℕ) (xs : List A) → length (take n xs) ≡ min n (length xs)
  length-take-min zero xs = omega arith
  length-take-min (suc n) [] = omega arith
  length-take-min (suc n) (x ∷ xs) = omega (arith, length-take-min n xs)

  All-drop : (P : A → Type 0) (n : ℕ) (xs : List A) → All P xs → All P (drop n xs)
  All-drop P zero xs h = h
  All-drop P (suc n) [] h = tt
  All-drop P (suc n) (x ∷ xs) (h, hs) = All-drop P n xs hs

  All-take : (P : A → Type 0) (n : ℕ) (xs : List A) → All P xs → All P (take n xs)
  All-take P zero xs h = tt
  All-take P (suc n) [] h = tt
  All-take P (suc n) (x ∷ xs) (h, hs) = (h, All-take P n xs hs)

  pub Ranked-take : (n : ℕ) (xs : List A) → Ranked xs → Ranked (take n xs)
  Ranked-take zero xs h = tt
  Ranked-take (suc n) [] h = tt
  Ranked-take (suc n) (x ∷ xs) (h, hs) =
      (All-take (λ y. before x y ≡ true) n xs h, Ranked-take n xs hs)

  -- Whatever is kept may stand before whatever is dropped.
  pub Ranked-take-drop :
      (n : ℕ) (xs : List A)
      → Ranked xs
      → All (λ x. All (λ y. before x y ≡ true) (drop n xs)) (take n xs)
  Ranked-take-drop zero xs h = tt
  Ranked-take-drop (suc n) [] h = tt
  Ranked-take-drop (suc n) (x ∷ xs) (h, hs) =
      (All-drop (λ y. before x y ≡ true) n xs h, Ranked-take-drop n xs hs)
