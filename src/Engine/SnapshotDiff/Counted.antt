-- ===== src/Engine/SnapshotDiff/Counted.antt =====
-- How much crates/cce-engine/src/snapshot_diff.rs reports of each key.
use cce.Prelude.{
  ℕ, ◌-◌, ◌≡◌, refl, ap, ◌∙◌, List, [], map, Text, text_eq, pair_eq, ◌==◌, count, length, inl, inr,
  Option-cases,
}
use cce.Prelude.Map.{lookup}
use cce.Prelude.Buckets.{bucket, text_ordered, pair_ordered}
use cce.Prelude.Buckets.Leftovers.{bucketed, leftovers, count-map-leftovers, length-bucket}
use cce.Core.Entity.{CodeEntity, debug_kind}
use cce.Core.Relation
use cce.Core.Relation.{Relation}
use cce.Engine.SnapshotDiff.Keys.{
  EntityKey, RelationKey, DiffEntityRef, DiffRelation, entity_key, entity_ref, entity_map,
  relation_key, relation_ref, or_else, endpoint_key, endpoint_ref, unresolved_key, unresolved_ref,
  entity_key_eq, relation_key_eq, endpoint_eq, endpoints_eq,
}
use cce.Engine.SnapshotDiff.Delta.{entity_delta, relation_delta, key_entities, key_relations}

-- The keys of what is reported, as a reader of the report can form them.

unfoldable pub ref_key : DiffEntityRef → EntityKey
ref_key ref = (debug_kind ref.kind, (or_else ref.qualified_name ref.name, or_else ref.path []))

unfoldable pub diff_key : (Text → Text) → DiffRelation → RelationKey
diff_key debug relation =
    (Relation.debug_kind debug relation.kind, (ref_key relation.source, ref_key relation.target))

-- How many entities of a snapshot have a key.
unfoldable pub entities_of : EntityKey → List CodeEntity → ℕ
entities_of key entities = count (λ entity. entity_key entity == key) entities

ref_key-entity_ref : (entity : CodeEntity) → ref_key (entity_ref entity) ≡ entity_key entity
unfolding ref_key entity_ref entity_key
ref_key-entity_ref entity = refl

-- Of each key (kind, qualified name or name, path), as many entities are reported as added as the
-- head has more of it than the base, and as many as removed as the base has more: the ids play no
-- part.
pub entity_delta_counts :
    (base head : List CodeEntity) (key : EntityKey)
    → (count (λ ref. ref_key ref == key) (entity_delta base head).0
        ≡ entities_of key head - entities_of key base)
      × (count (λ ref. ref_key ref == key) (entity_delta base head).1
          ≡ entities_of key base - entities_of key head)
unfolding entity_delta key_entities entities_of
entity_delta_counts base head key = (side base head, side head base)
  where
    side :
        (base head : List CodeEntity)
        → count
            (λ ref. ref_key ref == key)
            (map entity_ref (
              leftovers entity_key
                (λ k. length (bucket k (bucketed entity_key base [])))
                (bucketed entity_key head [])))
          ≡ count (λ e. entity_key e == key) head - count (λ e. entity_key e == key) base
    side base head =
        count-map-leftovers entity_key entity_ref ref_key ref_key-entity_ref
          (λ k. length (bucket k (bucketed entity_key base []))) key head
        ∙ ap (λ n. count (λ e. entity_key e == key) head - n) (length-bucket entity_key key base)

ref_key-endpoint_ref :
    (id : Text) (m : List (Text × CodeEntity)) → ref_key (endpoint_ref id m) ≡ endpoint_key id m
unfolding endpoint_ref endpoint_key unresolved_ref unresolved_key ref_key
ref_key-endpoint_ref id m = elim (Option-cases (lookup id m)) [
  | inl e ↦ rw (e, endpoint_ref, endpoint_key) refl
  | inr (entity, e) ↦ rw (e, endpoint_ref, endpoint_key) (ref_key-entity_ref entity)
]

module _ (debug : Text → Text) where
  diff_key-relation_ref :
      (m : List (Text × CodeEntity)) (relation : Relation)
      → diff_key debug (relation_ref m relation) ≡ relation_key debug m relation
  unfolding diff_key relation_ref relation_key
  diff_key-relation_ref m relation =
      rw
        (
          ref_key-endpoint_ref relation.source_entity_id m,
          ref_key-endpoint_ref relation.target_entity_id m,
        )
        refl

  -- How many relations of a snapshot have a key, its entities at hand.
  unfoldable pub relations_of : RelationKey → List CodeEntity → List Relation → ℕ
  relations_of key entities relations =
      count (λ relation. relation_key debug (entity_map entities []) relation == key) relations

  -- Of each key (kind, and the keys of both ends, each looked up in its own snapshot), as many
  -- relations are reported as added as the head has more of it than the base, and as many as removed
  -- as the base has more: the ids play no part.
  pub relation_delta_counts :
      (base head : List Relation) (base_entities head_entities : List CodeEntity)
      (key : RelationKey)
      → (count
            (λ r. diff_key debug r == key)
            (relation_delta debug base head base_entities head_entities).0
          ≡ relations_of key head_entities head - relations_of key base_entities base)
        × (count
              (λ r. diff_key debug r == key)
              (relation_delta debug base head base_entities head_entities).1.0
            ≡ relations_of key base_entities base - relations_of key head_entities head)
  unfolding relation_delta key_relations relations_of
  relation_delta_counts base head base_entities head_entities key = (
    side (entity_map base_entities []) (entity_map head_entities []) base head,
    side (entity_map head_entities []) (entity_map base_entities []) head base,
  )
    where
      side :
          (m n : List (Text × CodeEntity)) (base head : List Relation)
          → count
              (λ r. diff_key debug r == key)
              (map (relation_ref n) (
                leftovers
                  (relation_key debug n)
                  (λ k. length (bucket k (bucketed (relation_key debug m) base [])))
                  (bucketed (relation_key debug n) head [])))
            ≡ count (λ r. relation_key debug n r == key) head
              - count (λ r. relation_key debug m r == key) base
      side m n base head =
          count-map-leftovers (relation_key debug n) (relation_ref n) (diff_key debug)
            (diff_key-relation_ref n)
            (λ k. length (bucket k (bucketed (relation_key debug m) base []))) key head
          ∙ ap (λ c. count (λ r. relation_key debug n r == key) head - c)
              (length-bucket (relation_key debug m) key base)
