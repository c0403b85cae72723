-- ===== src/Prelude/Buckets/Leftovers.antt =====
-- Two lists grouped by a key, and what is left of one when each value of a key is paired off with
-- one of the other.
use Prim.Native.Nat.{ℕ, zero, suc, ◌-◌}
use mathlib.Core.Path.{fun_ext, ◌≡◌, refl, sym, ap, ◌∙◌, subst}
use mathlib.Core.Bool.{Bool, false}
use mathlib.Core.Logic.{inl, inr}
use mathlib.Core.List.{List, [], ◌∷◌, ◌++◌, map, append_assoc, append-nil}
use native.Mathlib.Omega.{arith}
use cce.Prelude.Tests.{Eq, ◌==◌, eq_iff, eq_refl, Bool-cases}
use cce.Prelude.Lists.{count-map, All, All-append, length, count, count-append, keep}
use cce.Prelude.Map.{lookup}
use cce.Prelude.Buckets.{
  Ordered, push_bucket, bucket, Ascending, Ascending-push_bucket, bucket-push_bucket, bucket-Below,
}

-- `Iterator::skip`.
abbrev pub skip {ℓ} : {A : Type ℓ} → ℕ → List A → List A
skip zero xs = xs
skip (suc n) [] = []
skip (suc n) (x ∷ xs) = skip n xs

module _ {K V : Type 0} ⦃e : Eq K⦄ ⦃o : Ordered K⦄ (key : V → K) where
  unfoldable pub bucketed : List V → List (K × List V) → List (K × List V)
  bucketed [] m = m
  bucketed (x ∷ xs) m = bucketed xs (push_bucket (key x) x m)

  -- For each bucket what follows its first `matched` values.
  unfoldable pub leftovers : (K → ℕ) → List (K × List V) → List V
  leftovers matched [] = []
  leftovers matched ((k, vs) ∷ m) = skip (matched k) vs ++ leftovers matched m

  Keyed : List (K × List V) → Type 0
  Keyed [] = Unit
  Keyed ((k, vs) ∷ m) = All (λ v. key v ≡ k) vs × Keyed m

  Keyed-push_bucket : (x : V) (m : List (K × List V)) → Keyed m → Keyed (push_bucket (key x) x m)
  unfolding Keyed push_bucket
  Keyed-push_bucket x [] h = ((refl, tt), tt)
  Keyed-push_bucket x ((j, vs) ∷ m) (hv, h) = elim (Bool-cases (key x == j)) [
    | inl same ↦
        rw same (All-append (λ v. key v ≡ j) vs (x ∷ []) hv ((eq_iff (key x) j).0 same, tt), h)
    | inr other ↦ elim (Bool-cases (o.order (key x) j)) [
      | inl le ↦ rw (other, le) ((refl, tt), (hv, h))
      | inr gt ↦ rw (other, gt) (hv, Keyed-push_bucket x m h)
    ]
  ]

  pub Ascending-bucketed :
      (xs : List V) (m : List (K × List V)) → Ascending m → Ascending (bucketed xs m)
  unfolding bucketed
  Ascending-bucketed [] m a = a
  Ascending-bucketed (x ∷ xs) m a =
      Ascending-bucketed xs (push_bucket (key x) x m) (Ascending-push_bucket (key x) x m a)

  Keyed-bucketed : (xs : List V) (m : List (K × List V)) → Keyed m → Keyed (bucketed xs m)
  unfolding bucketed
  Keyed-bucketed [] m h = h
  Keyed-bucketed (x ∷ xs) m h =
      Keyed-bucketed xs (push_bucket (key x) x m) (Keyed-push_bucket x m h)

  -- A bucket holds the values of its key, in their order.
  pub bucket-bucketed :
      (i : K) (xs : List V) (m : List (K × List V))
      → Ascending m
      → bucket i (bucketed xs m) ≡ bucket i m ++ keep (λ x. key x == i) xs
  unfolding bucketed keep
  bucket-bucketed i [] m a = sym (append-nil (bucket i m))
  bucket-bucketed i (x ∷ xs) m a =
      bucket-bucketed i xs (push_bucket (key x) x m) (Ascending-push_bucket (key x) x m a)
      ∙ ground (
        arith,
        bucket-push_bucket (key x) i x m a,
        append_assoc (bucket i m) (x ∷ []) (keep (λ y. key y == i) xs),
      )

  length-keep : (p : V → Bool) (xs : List V) → length (keep p xs) ≡ count p xs
  unfolding keep
  length-keep p [] = refl
  length-keep p (x ∷ xs) = ground (arith, length-keep p xs)

  pub length-bucket :
      (i : K) (xs : List V) → length (bucket i (bucketed xs [])) ≡ count (λ x. key x == i) xs
  unfolding bucket lookup
  length-bucket i xs = ap length (bucket-bucketed i xs [] tt) ∙ length-keep (λ x. key x == i) xs

  count-All :
      (i : K) (vs : List V) → All (λ v. key v ≡ i) vs → count (λ v. key v == i) vs ≡ length vs
  count-All i [] h = refl
  count-All i (v ∷ vs) (hv, h) = ground (arith, eq_iff (key v) i, count-All i vs h)

  count-other :
      (i j : K) (vs : List V)
      → (j == i) ≡ false
      → All (λ v. key v ≡ j) vs
      → count (λ v. key v == i) vs ≡ 0
  count-other i j [] ne h = refl
  count-other i j (v ∷ vs) ne (hv, h) =
      ground (arith, eq_iff (key v) i, eq_iff j i, count-other i j vs ne h)

  All-skip : (P : V → Type 0) (n : ℕ) (vs : List V) → All P vs → All P (skip n vs)
  All-skip P zero vs h = h
  All-skip P (suc n) [] h = tt
  All-skip P (suc n) (v ∷ vs) (hv, h) = All-skip P n vs h

  length-skip : (n : ℕ) (vs : List V) → length (skip n vs) ≡ length vs - n
  length-skip zero vs = omega arith
  length-skip (suc n) [] = omega arith
  length-skip (suc n) (v ∷ vs) = omega (arith, length-skip n vs)

  count-leftovers-bucket :
      (matched : K → ℕ) (i : K) (m : List (K × List V))
      → Ascending m
      → Keyed m
      → count (λ v. key v == i) (leftovers matched m) ≡ length (bucket i m) - matched i
  unfolding leftovers Keyed bucket lookup
  count-leftovers-bucket matched i [] a h = omega arith
  count-leftovers-bucket matched i ((j, vs) ∷ m) (b, a) (hv, h) = elim (Bool-cases (j == i)) [
    | inl same ↦
        subst
          (λ k.
            count (λ v. key v == k) (skip (matched j) vs ++ leftovers matched m)
            ≡ length (bucket k ((j, vs) ∷ m)) - matched k)
          ((eq_iff j i).0 same)
          (rw (eq_refl j, bucket, lookup)
            (omega (
              arith,
              count-append (λ v. key v == j) (skip (matched j) vs) (leftovers matched m),
              count-All j (skip (matched j) vs) (All-skip (λ v. key v ≡ j) (matched j) vs hv),
              length-skip (matched j) vs,
              count-leftovers-bucket matched j m a h,
              ap length (bucket-Below j m b),
            )))
    | inr other ↦ rw other (
        omega (
          arith,
          count-append (λ v. key v == i) (skip (matched j) vs) (leftovers matched m),
          count-other i j (skip (matched j) vs) other (All-skip (λ v. key v ≡ j) (matched j) vs hv),
          count-leftovers-bucket matched i m a h,
        ))
  ]

  -- Of each key, as many values are left as the list has more of it than are matched.
  pub count-leftovers :
      (matched : K → ℕ) (i : K) (xs : List V)
      → count (λ v. key v == i) (leftovers matched (bucketed xs []))
        ≡ count (λ x. key x == i) xs - matched i
  unfolding Keyed
  count-leftovers matched i xs =
      count-leftovers-bucket matched i (bucketed xs []) (Ascending-bucketed xs [] tt)
        (Keyed-bucketed xs [] tt)
      ∙ ap (λ n. n - matched i) (length-bucket i xs)

  -- The same of values that are passed on in another form, under the same key.
  pub count-map-leftovers :
      {R : Type 0} (form : V → R) (key_of : R → K)
      → ((v : V) → key_of (form v) ≡ key v)
      → (matched : K → ℕ) (i : K) (xs : List V)
      → count (λ r. key_of r == i) (map form (leftovers matched (bucketed xs [])))
        ≡ count (λ x. key x == i) xs - matched i
  count-map-leftovers form key_of same matched i xs =
      count-map (λ r. key_of r == i) form (leftovers matched (bucketed xs []))
      ∙ ap (λ (k : V → K). count (λ v. k v == i) (leftovers matched (bucketed xs [])))
          (fun_ext same)
      ∙ count-leftovers matched i xs

  -- A list in which no key occurs is empty.
  pub none_counted : (xs : List V) → ((k : K) → count (λ x. key x == k) xs ≡ 0) → xs ≡ []
  none_counted [] h = refl
  none_counted (x ∷ xs) h = ground (arith, h (key x), eq_refl (key x))
