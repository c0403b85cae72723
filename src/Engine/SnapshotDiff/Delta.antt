-- ===== src/Engine/SnapshotDiff/Delta.antt =====
-- What crates/cce-engine/src/snapshot_diff.rs reports of the entities and the relations of two
-- snapshots.
use cce.Prelude.{
  Bool, not, ◌||◌, List, [], ◌∷◌, ◌++◌, map, Text, text_eq, nat_eq, pair_eq, ◌==◌, if◌then◌else◌,
  length,
}
use cce.Prelude.Buckets.{bucket, text_ordered, pair_ordered}
use cce.Prelude.Buckets.Leftovers.{bucketed, leftovers}
use cce.Core.Entity.{CodeEntity}
use cce.Core.Relation.{Relation, same_origin}
use cce.Engine.SnapshotDiff.Keys.{
  EntityKey, RelationKey, DiffEntityRef, DiffRelation, ChangedRelation, entity_key, entity_ref,
  entity_map, relation_key, relation_ref, entity_key_eq, relation_key_eq, endpoint_eq, endpoints_eq,
}

unfoldable pub key_entities : List CodeEntity → List (EntityKey × List CodeEntity)
key_entities entities = bucketed entity_key entities []

-- The entities that the head has more than the base, and the other way around.
unfoldable pub entity_delta :
    List CodeEntity → List CodeEntity → List DiffEntityRef × List DiffEntityRef
entity_delta base head =
    let base_map = key_entities base in
    let head_map = key_entities head in
    (
      map entity_ref (leftovers entity_key (λ key. length (bucket key base_map)) head_map),
      map entity_ref (leftovers entity_key (λ key. length (bucket key head_map)) base_map),
    )

unfoldable pub drifted : Relation → Relation → Bool
drifted base head =
    not (same_origin base.origin head.origin) || not (base.confidence == head.confidence)

module _ (debug : Text → Text) where
  unfoldable pub key_relations :
      List (Text × CodeEntity) → List Relation → List (RelationKey × List Relation)
  key_relations entities relations = bucketed (relation_key debug entities) relations []

  unfoldable pub changed_relation : List (Text × CodeEntity) → Relation → Relation → ChangedRelation
  changed_relation entities base head =
      let head_ref = relation_ref entities head in
      record {
        kind = head_ref.kind;
        source = head_ref.source;
        target = head_ref.target;
        base_relation_id = base.id;
        head_relation_id = head.id;
        base_origin = base.origin;
        base_confidence = base.confidence;
        head_origin = head.origin;
        head_confidence = head.confidence;
      }

  -- The pairs of one key, in the order of the two buckets.
  unfoldable pub changed_pairs :
      List (Text × CodeEntity) → List Relation → List Relation → List ChangedRelation
  changed_pairs entities [] heads = []
  changed_pairs entities (base ∷ bases) [] = []
  changed_pairs entities (base ∷ bases) (head ∷ heads) =
      let rest = changed_pairs entities bases heads in
      if drifted base head then changed_relation entities base head ∷ rest else rest

  unfoldable pub changed_in :
      List (Text × CodeEntity)
      → List (RelationKey × List Relation)
      → List (RelationKey × List Relation)
      → List ChangedRelation
  changed_in entities base_map [] = []
  changed_in entities base_map ((key, heads) ∷ head_map) =
      changed_pairs entities (bucket key base_map) heads ++ changed_in entities base_map head_map

  -- A key that the base does not have has the empty bucket there: all its relations are added.
  unfoldable pub relation_delta :
      List Relation
      → List Relation
      → List CodeEntity
      → List CodeEntity
      → List DiffRelation × (List DiffRelation × List ChangedRelation)
  relation_delta base head base_entities head_entities =
      let base_ids = entity_map base_entities [] in
      let head_ids = entity_map head_entities [] in
      let base_map = key_relations base_ids base in
      let head_map = key_relations head_ids head in
      (
        map (relation_ref head_ids) (
            leftovers (relation_key debug head_ids) (λ key. length (bucket key base_map)) head_map),
        (
          map (relation_ref base_ids) (
              leftovers (relation_key debug base_ids) (λ key. length (bucket key head_map))
                base_map),
          changed_in head_ids base_map head_map,
        ),
      )
