-- ===== src/Engine/SnapshotDiff/Keys.antt =====
-- The keys and the references of crates/cce-engine/src/snapshot_diff.rs. `Debug` of a string is a
-- parameter.
use cce.Prelude.{ℕ, Option, none, some, List, [], ◌∷◌, Text, text_eq, nat_eq, pair_eq, Eq}
use cce.Prelude.Map.{lookup, insert}
use cce.Prelude.Buckets.{text_ordered, pair_ordered}
use cce.Core.Entity.{CodeEntity, EntityKind, debug_kind, unknown}
use cce.Core.Relation
use cce.Core.Relation.{Relation, RelationKind, RelationOrigin, same_origin}

abbrev pub EntityKey : Type 0
EntityKey = Text × (Text × Text)

abbrev pub RelationKey : Type 0
RelationKey = Text × (EntityKey × EntityKey)

instance abbrev pub endpoint_eq : Eq (Text × Text)
endpoint_eq = pair_eq

instance abbrev pub entity_key_eq : Eq EntityKey
entity_key_eq = pair_eq

instance abbrev pub endpoints_eq : Eq (EntityKey × EntityKey)
endpoints_eq = pair_eq

instance abbrev pub relation_key_eq : Eq RelationKey
relation_key_eq = pair_eq

pub record DiffEntityRef : Type 0 where
  pub entity_id : Text
  pub kind : EntityKind
  pub name : Text
  pub qualified_name : Option Text
  pub path : Option Text
  pub language : Option Text

pub record DiffRelation : Type 0 where
  pub relation_id : Text
  pub kind : RelationKind
  pub source : DiffEntityRef
  pub target : DiffEntityRef
  pub origin : RelationOrigin
  pub confidence : ℕ
  pub extractor : Text

pub record ChangedRelation : Type 0 where
  pub kind : RelationKind
  pub source : DiffEntityRef
  pub target : DiffEntityRef
  pub base_relation_id : Text
  pub head_relation_id : Text
  pub base_origin : RelationOrigin
  pub base_confidence : ℕ
  pub head_origin : RelationOrigin
  pub head_confidence : ℕ

abbrev pub or_else : Option Text → Text → Text
or_else none t = t
or_else (some s) t = s

abbrev path_of : CodeEntity → Option Text
path_of entity = elim entity.address [ none ↦ none | some address ↦ some address.path ]

unfoldable pub entity_key : CodeEntity → EntityKey
entity_key entity = (
  debug_kind entity.kind,
  (or_else entity.qualified_name entity.name, or_else (path_of entity) []),
)

unfoldable pub unresolved_key : Text → EntityKey
unresolved_key entity_id = (debug_kind unknown, (entity_id, []))

unfoldable pub entity_ref : CodeEntity → DiffEntityRef
entity_ref entity = record {
  entity_id = entity.id;
  kind = entity.kind;
  name = entity.name;
  qualified_name = entity.qualified_name;
  path = path_of entity;
  language = entity.language;
}

unfoldable pub unresolved_ref : Text → DiffEntityRef
unresolved_ref entity_id = record {
  entity_id = entity_id;
  kind = unknown;
  name = entity_id;
  qualified_name = none;
  path = none;
  language = none;
}

-- `endpoint_maps`: the entities by their ids; a later one of the same id takes its place.
unfoldable pub entity_map : List CodeEntity → List (Text × CodeEntity) → List (Text × CodeEntity)
entity_map [] m = m
entity_map (entity ∷ entities) m = entity_map entities (insert entity.id entity m)

unfoldable pub endpoint_key : Text → List (Text × CodeEntity) → EntityKey
endpoint_key entity_id entities = elim (lookup entity_id entities) [
  | none ↦ unresolved_key entity_id
  | some entity ↦ entity_key entity
]

unfoldable pub endpoint_ref : Text → List (Text × CodeEntity) → DiffEntityRef
endpoint_ref entity_id entities = elim (lookup entity_id entities) [
  | none ↦ unresolved_ref entity_id
  | some entity ↦ entity_ref entity
]

unfoldable pub relation_ref : List (Text × CodeEntity) → Relation → DiffRelation
relation_ref entities relation = record {
  relation_id = relation.id;
  kind = relation.kind;
  source = endpoint_ref relation.source_entity_id entities;
  target = endpoint_ref relation.target_entity_id entities;
  origin = relation.origin;
  confidence = relation.confidence;
  extractor = relation.extractor;
}

module _ (debug : Text → Text) where
  unfoldable pub relation_key : List (Text × CodeEntity) → Relation → RelationKey
  relation_key entities relation = (
    Relation.debug_kind debug relation.kind,
    (
      endpoint_key relation.source_entity_id entities,
      endpoint_key relation.target_entity_id entities,
    ),
  )
