-- ===== src/Prelude/Sort.antt =====
-- `sort_by` on a text key: a stable sort. Rust compares strings by their UTF-8 bytes, which is the
-- order of their code points.
use mathlib.Core.Path.{◌≡◌, refl, ap, ap₂, ◌∙◌}
use mathlib.Core.Bool.{Bool, true, false, Bool-set, ◌||◌}
use mathlib.Core.List.{List, [], ◌∷◌, Permᴰ, Pairwise, Pairwise-cons, Pairwise-pair, mem-cons_self}
use mathlib.Core.List.Permᴰ
use Prim.Native.Nat.{suc}
use native.Mathlib.Omega.{arith}
use cce.Prelude.Tests.{◌==◌, nat_eq, if◌then◌else◌, ltb, eq_iff, Bool-cases}
use mathlib.Core.Logic.{inl, inr}
use cce.Prelude.Lists.{All, length, any, count}
use cce.Prelude.Strings.{Text, text_eq}

unfoldable pub text_leb : Text → Text → Bool
text_leb [] t = true
text_leb (a ∷ s) [] = false
text_leb (a ∷ s) (b ∷ t) =
    let rest = text_leb s t in if ltb a b then true else if a == b then rest else false

pub text_leb_total : (s t : Text) → text_leb s t ≡ false → text_leb t s ≡ true
unfolding text_leb
text_leb_total [] t h = cc
text_leb_total (a ∷ s) [] h = refl
text_leb_total (a ∷ s) (b ∷ t) h = ground (arith, text_leb_total s t)

pub text_leb_trans :
    (s t u : Text) → text_leb s t ≡ true → text_leb t u ≡ true → text_leb s u ≡ true
unfolding text_leb
text_leb_trans [] t u h k = refl
text_leb_trans (a ∷ s) [] u h k = cc
text_leb_trans (a ∷ s) (b ∷ t) [] h k = cc
text_leb_trans (a ∷ s) (b ∷ t) (c ∷ u) h k = ground (arith, text_leb_trans s t u)

pub text_leb_antisymm : (s t : Text) → text_leb s t ≡ true → text_leb t s ≡ true → s ≡ t
unfolding text_leb
text_leb_antisymm [] [] h k = refl
text_leb_antisymm [] (b ∷ t) h k = cc
text_leb_antisymm (a ∷ s) [] h k = cc
text_leb_antisymm (a ∷ s) (b ∷ t) h k = ground (arith, text_leb_antisymm s t)

module _ {ℓ} {A : Type ℓ} (key : A → Text) where
  insert_by : A → List A → List A
  insert_by x [] = x ∷ []
  insert_by x (y ∷ ys) = if text_leb (key x) (key y) then x ∷ y ∷ ys else y ∷ insert_by x ys

  unfoldable pub sort_by : List A → List A
  unfolding insert_by
  sort_by [] = []
  sort_by (x ∷ xs) = insert_by x (sort_by xs)

  length-insert_by : (x : A) (xs : List A) → length (insert_by x xs) ≡ suc (length xs)
  unfolding insert_by
  length-insert_by x [] = refl
  length-insert_by x (y ∷ ys) = ground (arith, length-insert_by x ys)

  pub length-sort_by : (xs : List A) → length (sort_by xs) ≡ length xs
  unfolding sort_by
  length-sort_by [] = refl
  length-sort_by (x ∷ xs) = omega (arith, length-insert_by x (sort_by xs), length-sort_by xs)

  count-insert_by :
      (p : A → Bool) (x : A) (ys : List A) → count p (insert_by x ys) ≡ count p (x ∷ ys)
  unfolding insert_by
  count-insert_by p x [] = refl
  count-insert_by p x (y ∷ ys) = ground (arith, count-insert_by p x ys)

  pub count-sort_by : (p : A → Bool) (xs : List A) → count p (sort_by xs) ≡ count p xs
  unfolding sort_by
  count-sort_by p [] = refl
  count-sort_by p (x ∷ xs) = ground (arith, count-insert_by p x (sort_by xs), count-sort_by p xs)

  -- Two values with different keys.
  abbrev pub Apart : A → A → Type 0
  Apart x y = (key x == key y) ≡ false

  insert_by_comm :
      (x y : A) (zs : List A)
      → Apart x y
      → insert_by x (insert_by y zs) ≡ insert_by y (insert_by x zs)
  unfolding insert_by
  insert_by_comm x y [] h = ground (
    arith,
    text_leb_total (key x) (key y),
    text_leb_antisymm (key x) (key y),
    eq_iff (key x) (key y),
  )
  insert_by_comm x y (z ∷ zs) h = ground (
    arith,
    insert_by_comm x y zs h,
    text_leb_total (key x) (key y),
    text_leb_antisymm (key x) (key y),
    eq_iff (key x) (key y),
    text_leb_trans (key x) (key y) (key z),
    text_leb_trans (key y) (key x) (key z),
  )

  Apart-prop : (x y : A) → IsProp (Apart x y)
  Apart-prop x y = Bool-set _ _

  pub pair-Apart : (x y : A) → Apart x y → Pairwise Apart (x ∷ y ∷ [])
  pair-Apart x y h = (Pairwise-pair Apart-prop).1 h

  Apart-symm : (x y : A) → Apart x y → Apart y x
  Apart-symm x y h = ground (arith, eq_iff (key x) (key y), eq_iff (key y) (key x))

  pub sort_by-Permᴰ : {xs ys : List A} → Permᴰ xs ys → Pairwise Apart xs → sort_by xs ≡ sort_by ys
  unfolding sort_by
  sort_by-Permᴰ Permᴰ.nil h = refl
  sort_by-Permᴰ (Permᴰ.cons {a = a} {l₁ = l₁} e p) h =
      ap₂ insert_by e (sort_by-Permᴰ p (Pairwise-cons.0 h).1)
  sort_by-Permᴰ (Permᴰ.swap {a = a} {b = b} {l = l} e e') h =
      insert_by_comm a b (sort_by l) ((Pairwise-cons.0 h).0 b mem-cons_self)
      ∙ ap₂ (λ u v. insert_by u (insert_by v (sort_by l))) e' e
  sort_by-Permᴰ (Permᴰ.trans p q) h =
      sort_by-Permᴰ p h ∙ sort_by-Permᴰ q (Permᴰ.pairwise Apart-prop Apart-symm p h)

  -- Each value stands before no smaller one.
  abbrev pub Sorted : List A → Type 0
  Sorted [] = Unit
  Sorted (x ∷ []) = Unit
  Sorted (x ∷ y ∷ ys) = (text_leb (key x) (key y) ≡ true) × Sorted (y ∷ ys)

  Sorted-insert_by : (x : A) (ys : List A) → Sorted ys → Sorted (insert_by x ys)
  unfolding insert_by
  Sorted-insert_by x [] h = tt
  Sorted-insert_by x (y ∷ []) h = elim (Bool-cases (text_leb (key x) (key y))) [
    | inl le ↦ rw le (le, tt)
    | inr gt ↦ rw gt (text_leb_total (key x) (key y) gt, tt)
  ]
  Sorted-insert_by x (y ∷ z ∷ zs) (h, hs) = elim (Bool-cases (text_leb (key x) (key y))) [
    | inl le ↦ rw le (le, (h, hs))
    | inr gt ↦ elim (Bool-cases (text_leb (key x) (key z))) [
      | inl le ↦ rw (gt, le) (text_leb_total (key x) (key y) gt, (le, hs))
      | inr gt' ↦ rw (gt, gt') (h, rw gt' at (Sorted-insert_by x (z ∷ zs) hs))
    ]
  ]

  pub Sorted-sort_by : (xs : List A) → Sorted (sort_by xs)
  unfolding sort_by
  Sorted-sort_by [] = tt
  Sorted-sort_by (x ∷ xs) = Sorted-insert_by x (sort_by xs) (Sorted-sort_by xs)

  All-insert_by {κ} :
      (P : A → Type κ) (x : A) (ys : List A) → P x → All P ys → All P (insert_by x ys)
  unfolding insert_by
  All-insert_by P x [] h hs = (h, tt)
  All-insert_by P x (y ∷ ys) h (k, ks) = elim (Bool-cases (text_leb (key x) (key y))) [
    | inl le ↦ rw le (h, (k, ks))
    | inr gt ↦ rw gt (k, All-insert_by P x ys h ks)
  ]

  pub All-sort_by {κ} : (P : A → Type κ) (xs : List A) → All P xs → All P (sort_by xs)
  unfolding sort_by
  All-sort_by P [] h = tt
  All-sort_by P (x ∷ xs) (h, hs) = All-insert_by P x (sort_by xs) h (All-sort_by P xs hs)

  any-insert_by : (p : A → Bool) (x : A) (xs : List A) → any p (insert_by x xs) ≡ p x || any p xs
  unfolding insert_by any
  any-insert_by p x [] = refl
  any-insert_by p x (y ∷ ys) = ground (arith, any-insert_by p x ys)

  pub any-sort_by : (p : A → Bool) (xs : List A) → any p (sort_by xs) ≡ any p xs
  unfolding sort_by any
  any-sort_by p [] = refl
  any-sort_by p (x ∷ xs) = ground (arith, any-insert_by p x (sort_by xs), any-sort_by p xs)

-- `Vec::dedup`.
unfoldable pub dedup : List Text → List Text
dedup [] = []
dedup (x ∷ []) = x ∷ []
dedup (x ∷ y ∷ ys) = let rest = dedup (y ∷ ys) in if x == y then rest else x ∷ rest

pub any-dedup : (p : Text → Bool) (xs : List Text) → any p (dedup xs) ≡ any p xs
unfolding dedup any
any-dedup p [] = refl
any-dedup p (x ∷ []) = refl
any-dedup p (x ∷ y ∷ ys) = elim (Bool-cases (x == y)) [
  | inl same ↦ rw same (any-dedup p (y ∷ ys) ∙ ground (arith, eq_iff x y, same))
  | inr other ↦ rw other (ap (λ b. p x || b) (any-dedup p (y ∷ ys)))
]
