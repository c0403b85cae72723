-- ===== src/Prelude/Buckets.antt =====
-- `BTreeMap<K, Vec<V>>` with `entry(k).or_default().push(v)`: an association list in the order of
-- the keys.
pub mod Leftovers
use Prim.Native.Nat.{ℕ}
use mathlib.Core.Path.{◌≡◌, refl, sym, ap, ◌∙◌, subst}
use mathlib.Core.Bool.{Bool, true, false}
use mathlib.Core.Logic.{inl, inr}
use mathlib.Core.Option.{Option, none, some}
use mathlib.Core.List.{List, [], ◌∷◌, ◌++◌}
use native.Mathlib.Omega.{arith}
use cce.Prelude.Tests.{Eq, ◌==◌, eq_iff, eq_refl, if◌then◌else◌, Bool-cases, pair_eq}
use cce.Prelude.Lists.{All, length, count, count-append, keep}
use cce.Prelude.Strings.{Text, text_eq}
use cce.Prelude.Map.{lookup}
use cce.Prelude.Sort.{text_leb, text_leb_total, text_leb_trans, text_leb_antisymm}

-- A type with a total order, as `Ord` is.
pub record Ordered (A : Type 0) ⦃e : Eq A⦄ : Type 0 where
  pub order : A → A → Bool
  pub total : (a b : A) → order a b ≡ false → order b a ≡ true
  pub transitive : (a b c : A) → order a b ≡ true → order b c ≡ true → order a c ≡ true
  pub antisymmetric : (a b : A) → order a b ≡ true → order b a ≡ true → a ≡ b

instance abbrev pub text_ordered : Ordered Text
text_ordered = record {
  order = text_leb;
  total = text_leb_total;
  transitive = text_leb_trans;
  antisymmetric = text_leb_antisymm;
}

module _ {A B : Type 0} ⦃e : Eq A⦄ ⦃f : Eq B⦄ ⦃o : Ordered A⦄ ⦃p : Ordered B⦄ where
  -- Tuples compare by their first parts, and by the second where these are equal.
  unfoldable pub pair_order : A × B → A × B → Bool
  pair_order (a, b) (c, d) = if a == c then p.order b d else o.order a c

  pub pair_order_total : (x y : A × B) → pair_order x y ≡ false → pair_order y x ≡ true
  unfolding pair_order
  pair_order_total (a, b) (c, d) h =
      ground (arith, eq_iff a c, eq_iff c a, o.total a c, p.total b d)

  pub pair_order_trans :
      (x y z : A × B) → pair_order x y ≡ true → pair_order y z ≡ true → pair_order x z ≡ true
  unfolding pair_order
  pair_order_trans (a, b) (c, d) (m, n) h k = ground (
    arith,
    eq_iff a c,
    eq_iff c m,
    eq_iff a m,
    o.transitive a c m,
    o.antisymmetric a c,
    p.transitive b d n,
  )

  pub pair_order_antisymm : (x y : A × B) → pair_order x y ≡ true → pair_order y x ≡ true → x ≡ y
  unfolding pair_order
  pair_order_antisymm (a, b) (c, d) h k =
      ground (arith, eq_iff a c, eq_iff c a, o.antisymmetric a c, p.antisymmetric b d)

  instance abbrev pub pair_ordered : Ordered (A × B)
  pair_ordered = record {
    order = pair_order;
    total = pair_order_total;
    transitive = pair_order_trans;
    antisymmetric = pair_order_antisymm;
  }

-- A list that may be missing.
abbrev pub or_empty : {V : Type 0} → Option (List V) → List V
or_empty none = []
or_empty (some vs) = vs

module _ {K V : Type 0} ⦃e : Eq K⦄ ⦃o : Ordered K⦄ where
  unfoldable pub push_bucket : K → V → List (K × List V) → List (K × List V)
  push_bucket k v [] = (k, v ∷ []) ∷ []
  push_bucket k v ((j, vs) ∷ m) =
      let rest = push_bucket k v m in
      if k == j
      then (j, vs ++ (v ∷ [])) ∷ m
      else (if o.order k j then (k, v ∷ []) ∷ (j, vs) ∷ m else (j, vs) ∷ rest)

  -- `map.get(key)`: the bucket of a key, empty where there is none.
  unfoldable pub bucket : K → List (K × List V) → List V
  bucket k m = or_empty (lookup k m)

  -- Every later key is greater.
  abbrev pub Below : K → List (K × List V) → Type 0
  Below k [] = Unit
  Below k ((j, vs) ∷ m) = (o.order k j ≡ true) × ((k == j) ≡ false) × Below k m

  abbrev pub Ascending : List (K × List V) → Type 0
  Ascending [] = Unit
  Ascending ((j, vs) ∷ m) = Below j m × Ascending m

  Below-trans :
      (k j : K) (m : List (K × List V))
      → o.order k j ≡ true
      → (k == j) ≡ false
      → Below j m
      → Below k m
  Below-trans k j [] h ne b = tt
  Below-trans k j ((i, vs) ∷ m) h ne (h', ne', b) = (
    o.transitive k j i h h',
    ground (arith, eq_iff k i, eq_iff k j, o.antisymmetric j k),
    Below-trans k j m h ne b,
  )

  pub bucket-Below : (k : K) (m : List (K × List V)) → Below k m → bucket k m ≡ []
  unfolding bucket lookup
  bucket-Below k [] b = refl
  bucket-Below k ((j, vs) ∷ m) (h, ne, b) =
      ground (arith, eq_iff j k, eq_iff k j, bucket-Below k m b)

  pub bucket_head : (j : K) (vs : List V) (m : List (K × List V)) → bucket j ((j, vs) ∷ m) ≡ vs
  unfolding bucket lookup
  bucket_head j vs m = rw (eq_refl j) refl

  pub bucket_tail :
      (j k : K) (vs : List V) (m : List (K × List V))
      → (j == k) ≡ false
      → bucket k ((j, vs) ∷ m) ≡ bucket k m
  unfolding bucket lookup
  bucket_tail j k vs m h = rw h refl

  Below-push_bucket :
      (i k : K) (v : V) (m : List (K × List V))
      → o.order i k ≡ true
      → (i == k) ≡ false
      → Below i m
      → Below i (push_bucket k v m)
  unfolding push_bucket
  Below-push_bucket i k v [] h ne b = (h, ne, tt)
  Below-push_bucket i k v ((j, vs) ∷ m) h ne (h', ne', b) = elim (Bool-cases (k == j)) [
    | inl same ↦ rw same (h', ne', b)
    | inr other ↦ elim (Bool-cases (o.order k j)) [
      | inl le ↦ rw (other, le) (h, ne, (h', ne', b))
      | inr gt ↦ rw (other, gt) (h', ne', Below-push_bucket i k v m h ne b)
    ]
  ]

  Ascending-push_bucket :
      (k : K) (v : V) (m : List (K × List V)) → Ascending m → Ascending (push_bucket k v m)
  unfolding push_bucket
  Ascending-push_bucket k v [] a = (tt, tt)
  Ascending-push_bucket k v ((j, vs) ∷ m) (b, a) = elim (Bool-cases (k == j)) [
    | inl same ↦ rw same (b, a)
    | inr other ↦ elim (Bool-cases (o.order k j)) [
      | inl le ↦ rw (other, le) ((le, other, Below-trans k j m le other b), (b, a))
      | inr gt ↦
          rw (other, gt)
            (
              Below-push_bucket j k v m (o.total k j gt) (ground (arith, eq_iff j k, eq_iff k j)) b,
              Ascending-push_bucket k v m a,
            )
    ]
  ]

  bucket-push_bucket :
      (k i : K) (v : V) (m : List (K × List V))
      → Ascending m
      → bucket i (push_bucket k v m) ≡ (if k == i then bucket i m ++ (v ∷ []) else bucket i m)
  unfolding bucket lookup push_bucket
  bucket-push_bucket k i v [] a = ground arith
  bucket-push_bucket k i v ((j, vs) ∷ m) (b, a) = elim (Bool-cases (k == j)) [
    | inl same ↦ rw same (ground (arith, eq_iff k j, eq_iff j i, eq_iff k i))
    | inr other ↦ elim (Bool-cases (o.order k j)) [
      | inl le ↦
          rw (other, le)
            (ground (
              arith,
              eq_iff k i,
              bucket-Below k ((j, vs) ∷ m) (le, other, Below-trans k j m le other b),
            ))
      | inr gt ↦
          rw (other, gt)
            (ground (arith, bucket-push_bucket k i v m a, eq_iff k j, eq_iff j i, eq_iff k i))
    ]
  ]
