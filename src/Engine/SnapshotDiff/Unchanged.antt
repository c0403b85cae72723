-- ===== src/Engine/SnapshotDiff/Unchanged.antt =====
-- When crates/cce-engine/src/snapshot_diff.rs reports nothing.
use mathlib.Core.List.{Permᴰ}
use mathlib.Core.List.Permᴰ
use cce.Prelude.{
  ◌≡◌, refl, sym, ◌∙◌, true, false, subst, List, [], ◌∷◌, map, Text, text_eq, pair_eq, ◌==◌, eq_iff,
  count, length, inl, inr, Bool-cases, arith, Bool, All, eq_refl, nat_eq, count-Permᴰ,
}
use cce.Prelude.Lists.{count-map, keep}
use cce.Prelude.Map.{lookup}
use cce.Prelude.Buckets.{
  bucket, text_ordered, pair_ordered, Ascending, bucket-Below, bucket_head, bucket_tail,
}
use cce.Prelude.Buckets.Leftovers.{
  bucketed, leftovers, count-leftovers, none_counted, length-bucket, bucket-bucketed,
  Ascending-bucketed,
}
use cce.Core.Entity.{CodeEntity}
use cce.Core.Relation.{Relation, same_origin_refl}
use cce.Engine.SnapshotDiff.Keys.{
  RelationKey, entity_key, entity_map, relation_key, entity_key_eq, relation_key_eq, endpoint_eq,
  endpoints_eq,
}
use cce.Engine.SnapshotDiff.Delta.{
  entity_delta, relation_delta, key_entities, key_relations, drifted, changed_pairs, changed_in,
}

nothing_left :
    (base head : List CodeEntity)
    → Permᴰ (map entity_key base) (map entity_key head)
    → leftovers entity_key
        (λ k. length (bucket k (bucketed entity_key base [])))
        (bucketed entity_key head [])
      ≡ []
nothing_left base head same = none_counted entity_key _ (λ k.
    count-leftovers entity_key _ k head
    ∙ omega (
      arith,
      length-bucket entity_key k base,
      sym (count-map (λ j. j == k) entity_key base)
          ∙ count-Permᴰ (λ j. j == k) same
          ∙ count-map (λ j. j == k) entity_key head,
    ))

drifted-agree :
    (base head : Relation)
    → base.origin ≡ head.origin
    → base.confidence ≡ head.confidence
    → drifted base head ≡ false
unfolding drifted
drifted-agree base head o c = rw (o, c, same_origin_refl head.origin, eq_refl head.confidence) refl

All-map :
    {P Q : Relation → Type 0}
    → ((x : Relation) → P x → Q x)
    → (xs : List Relation) → All P xs
    → All Q xs
All-map f [] h = tt
All-map f (x ∷ xs) (hx, h) = (f x hx, All-map f xs h)

All-keep :
    {P Q : Relation → Type 0} (p : Relation → Bool)
    → ((x : Relation) → p x ≡ true → P x → Q x)
    → (xs : List Relation) → All P xs
    → All Q (keep p xs)
unfolding keep
All-keep p f [] h = tt
All-keep p f (x ∷ xs) (hx, h) = elim (Bool-cases (p x)) [
  | inl e ↦ rw e (f x e hx, All-keep p f xs h)
  | inr e ↦ rw e (All-keep p f xs h)
]

module _ (debug : Text → Text) (m n : List (Text × CodeEntity)) where
  -- The same edges, whatever ids they and their ends have, and in whatever order: the same keys, each
  -- as often, and all edges of one key agree in origin and confidence.
  pub record SameEdges (bases heads : List Relation) : Type 0 where
    pub keys : Permᴰ (map (relation_key debug m) bases) (map (relation_key debug n) heads)
    pub agree :
        All
          (λ base.
            All
              (λ head.
                relation_key debug m base ≡ relation_key debug n head
                → (base.origin ≡ head.origin) × (base.confidence ≡ head.confidence))
              heads)
          bases

  same_count :
      (k : RelationKey) (bases heads : List Relation)
      → SameEdges bases heads
      → count (λ r. relation_key debug m r == k) bases
        ≡ count (λ r. relation_key debug n r == k) heads
  same_count k bases heads s =
      sym (count-map (λ j. j == k) (relation_key debug m) bases)
      ∙ count-Permᴰ (λ j. j == k) s.keys
      ∙ count-map (λ j. j == k) (relation_key debug n) heads

  agreeing_pairs :
      (bases heads : List Relation)
      → All (λ base. All (λ head. drifted base head ≡ false) heads) bases
      → changed_pairs debug n bases heads ≡ []
  unfolding changed_pairs
  agreeing_pairs [] heads h = refl
  agreeing_pairs (base ∷ bases) [] h = refl
  agreeing_pairs (base ∷ bases) (head ∷ heads) ((calm, _), h) =
      rw calm (agreeing_pairs bases heads (All-map (λ _ hs. hs.1) bases h))

  no_changed_pairs :
      (k : RelationKey) (bases heads : List Relation)
      → SameEdges bases heads
      → changed_pairs debug n
          (keep (λ r. relation_key debug m r == k) bases)
          (keep (λ r. relation_key debug n r == k) heads)
        ≡ []
  no_changed_pairs k bases heads s = agreeing_pairs _ _ (
      All-keep (λ r. relation_key debug m r == k)
        (λ base e hs.
          All-keep (λ r. relation_key debug n r == k)
            (λ head f agree.
              let (origin, confidence) = agree (
                (eq_iff (relation_key debug m base) k).0 e
                ∙ sym ((eq_iff (relation_key debug n head) k).0 f)) in
              drifted-agree base head origin confidence)
            heads hs)
        bases s.agree)

  pairs_nil : (bases : List Relation) → changed_pairs debug n bases [] ≡ []
  unfolding changed_pairs
  pairs_nil [] = refl
  pairs_nil (base ∷ bases) = refl

  no_changed_in :
      (base_map head_map : List (RelationKey × List Relation))
      → Ascending head_map
      → ((k : RelationKey) → changed_pairs debug n (bucket k base_map) (bucket k head_map) ≡ [])
      → changed_in debug n base_map head_map ≡ []
  unfolding changed_in
  no_changed_in base_map [] a h = refl
  no_changed_in base_map ((j, heads) ∷ head_map) (b, a) h =
      rw (here, no_changed_in base_map head_map a later) refl
    where
      here : changed_pairs debug n (bucket j base_map) heads ≡ []
      here = rw (bucket_head j heads head_map) at (h j)

      later : (k : RelationKey) → changed_pairs debug n (bucket k base_map) (bucket k head_map) ≡ []
      later k = elim (Bool-cases (j == k)) [
        | inl e ↦ rw (absent k e) (pairs_nil (bucket k base_map))
        | inr e ↦ rw (bucket_tail j k heads head_map e) at (h k)
      ]
        where
          absent : (k : RelationKey) → (j == k) ≡ true → bucket k head_map ≡ []
          absent k e =
              subst (λ i. bucket i head_map ≡ []) ((eq_iff j k).0 e) (bucket-Below j head_map b)

  edges_left :
      (bases heads : List Relation)
      → SameEdges bases heads
      → (leftovers
            (relation_key debug n)
            (λ k. length (bucket k (bucketed (relation_key debug m) bases [])))
            (bucketed (relation_key debug n) heads [])
          ≡ [])
        × (leftovers
              (relation_key debug m)
              (λ k. length (bucket k (bucketed (relation_key debug n) heads [])))
              (bucketed (relation_key debug m) bases [])
            ≡ [])
  edges_left bases heads s = (
    none_counted (relation_key debug n) _ (λ k.
        count-leftovers (relation_key debug n) _ k heads
        ∙ omega (arith, length-bucket (relation_key debug m) k bases, same_count k bases heads s)),
    none_counted (relation_key debug m) _ (λ k.
        count-leftovers (relation_key debug m) _ k bases
        ∙ omega (arith, length-bucket (relation_key debug n) k heads, same_count k bases heads s)),
  )

  nothing_changed :
      (bases heads : List Relation)
      → SameEdges bases heads
      → changed_in debug n (key_relations debug m bases) (key_relations debug n heads) ≡ []
  unfolding key_relations bucket lookup
  nothing_changed bases heads s =
      no_changed_in (bucketed (relation_key debug m) bases [])
        (bucketed (relation_key debug n) heads [])
        (Ascending-bucketed (relation_key debug n) heads [] tt)
        (λ k.
          rw
            (
              bucket-bucketed (relation_key debug m) k bases [] tt,
              bucket-bucketed (relation_key debug n) k heads [] tt,
            )
            (no_changed_pairs k bases heads s))

-- An edit that gives the entities and relations other ids, byte ranges and places in the lists, and
-- changes nothing else, is not reported, as long as the edges of one key agree: with the same entity
-- keys and the same edge keys, each as often, and where a base edge and a head edge of one key
-- always have the same origin and confidence, every list of the delta is empty.
pub renaming_is_no_change :
    (debug : Text → Text) (base_entities head_entities : List CodeEntity)
    (base head : List Relation)
    → Permᴰ (map entity_key base_entities) (map entity_key head_entities)
    → SameEdges debug (entity_map base_entities []) (entity_map head_entities []) base head
    → (entity_delta base_entities head_entities ≡ ([], []))
      × (relation_delta debug base head base_entities head_entities ≡ ([], ([], [])))
unfolding entity_delta key_entities relation_delta key_relations
renaming_is_no_change debug base_entities head_entities base head same edges =
    let (added, removed) = edges_left debug m n base head edges in
    (
      rw
          (
            nothing_left base_entities head_entities same,
            nothing_left head_entities base_entities (Permᴰ.symm same),
          )
          refl,
      rw (added, removed, nothing_changed debug m n base head edges) refl,
    )
  where
    m : List (Text × CodeEntity)
    m = entity_map base_entities []

    n : List (Text × CodeEntity)
    n = entity_map head_entities []
