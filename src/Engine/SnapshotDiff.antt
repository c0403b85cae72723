-- ===== src/Engine/SnapshotDiff.antt =====
-- crates/cce-engine/src/snapshot_diff.rs: the delta between two committed snapshots. What the store
-- answers is an argument, and `Debug` of a string is a parameter.
pub mod Keys
pub mod Delta
pub mod Counted
pub mod Unchanged
use cce.Prelude.{
  ℕ, ◌+◌, Bool, true, false, not, ◌||◌, Option, none, some, List, [], ◌∷◌, ◌++◌, map, take,
  get_elem?, any, Text, txt, text_eq, nat_eq, pair_eq, Eq, ◌==◌, ltb, if◌then◌else◌, length,
}
use cce.Prelude.Map.{lookup, insert}
use cce.Prelude.Buckets.{bucket, text_ordered, pair_ordered}
use cce.Prelude.Buckets.Leftovers.{bucketed, leftovers, skip}
use cce.Core.Entity.{CodeEntity, EntityKind, debug_kind, unknown}
use cce.Core.Relation
use cce.Core.Relation.{Relation, RelationKind, RelationOrigin, same_origin}
use cce.Engine.SnapshotDiff.Keys.{
  EntityKey, RelationKey, DiffEntityRef, DiffRelation, ChangedRelation, entity_key, entity_ref,
  entity_map, relation_key, relation_ref, entity_key_eq, relation_key_eq, endpoint_eq, endpoints_eq,
}
use Delta.{entity_delta, relation_delta}

-- `DIFF_LIST_CAP`.
abbrev pub list_cap : ℕ
list_cap = 500

pub record DiffCounts : Type 0 where
  pub added_entities : ℕ
  pub removed_entities : ℕ
  pub added_relations : ℕ
  pub removed_relations : ℕ
  pub changed_relations : ℕ

pub record ArchitectureDiff : Type 0 where
  pub repository_id : Text
  pub base_snapshot_id : Text
  pub head_snapshot_id : Text
  pub added_entities : List DiffEntityRef
  pub removed_entities : List DiffEntityRef
  pub added_relations : List DiffRelation
  pub removed_relations : List DiffRelation
  pub changed_relations : List ChangedRelation
  pub counts : DiffCounts
  pub truncated : Bool
  pub provenance : Text

-- `CceError`, as far as this file returns it.
pub data CceError : Type 0 where
  configuration : Text → CceError
  view_unavailable : Text → Text → CceError

pub data Result {ℓ} (A : Type ℓ) : Type ℓ where
  ok : A → Result A
  err : CceError → Result A

infixl 5 ◌>>=◌
abbrev pub ◌>>=◌ {ℓ κ} : {A : Type ℓ} {B : Type κ} → Result A → (A → Result B) → Result B
ok a >>= f = f a
err e >>= f = err e

-- A snapshot that was asked for must be among the completed ones.
unfoldable pub among : List Text → Text → Result Text
among committed id =
    if any (λ entry. entry == id) committed
    then ok id
    else err
        (configuration (txt "`" ++ id ++ txt "` is not a completed snapshot of this repository"))

-- What follows the first entry with this id.
unfoldable pub entry_after : List Text → Text → Option Text
entry_after [] id = none
entry_after (entry ∷ committed) id =
    let rest = entry_after committed id in if entry == id then get_elem? committed 0 else rest

abbrev ok_or : Option Text → CceError → Result Text
ok_or none e = err e
ok_or (some id) e = ok id

-- `Option::filter`.
abbrev filter : (Text → Bool) → Option Text → Option Text
filter p none = none
filter p (some id) = if p id then some id else none

abbrev head_of : List Text → Option Text → Option Text → Result Text
head_of committed current (some id) = among committed id
head_of committed current none =
    ok_or (filter (λ id. any (λ entry. entry == id) committed) current)
      (view_unavailable (txt "diff") (txt "repository has not been indexed; run `cce index`"))

abbrev base_of : List Text → Text → Option Text → Result Text
base_of committed head_id (some id) = among committed id
base_of committed head_id none =
    ok_or (entry_after committed head_id)
      (view_unavailable (txt "diff") (txt "no earlier committed snapshot to diff against"))

-- The ids of the completed snapshots, the newest first, and the current one. The base and the head
-- to compare.
unfoldable pub resolve_diff_pair :
    List Text → Option Text → Option Text → Option Text → Result (Text × Text)
resolve_diff_pair committed current base head = do
  head_id ← head_of committed current head
  base_id ← base_of committed head_id base
  ok (base_id, head_id)

-- What the store has of each snapshot.
pub record Rows : Type 0 where
  pub entities : Text → List CodeEntity
  pub relations : Text → List Relation

unfoldable pub compare : (Text → Text) → Rows → Text → Text → Text → ArchitectureDiff
compare debug rows repository_id base_id head_id =
    let (added_entities, removed_entities) =
      entity_delta (rows.entities base_id) (rows.entities head_id) in
    let (added_relations, (removed_relations, changed_relations)) =
      relation_delta debug (rows.relations base_id) (rows.relations head_id) (rows.entities base_id)
        (rows.entities head_id) in
    let counts : DiffCounts = record {
      added_entities = length added_entities;
      removed_entities = length removed_entities;
      added_relations = length added_relations;
      removed_relations = length removed_relations;
      changed_relations = length changed_relations;
    } in
    record {
      repository_id = repository_id;
      base_snapshot_id = base_id;
      head_snapshot_id = head_id;
      added_entities = take list_cap added_entities;
      removed_entities = take list_cap removed_entities;
      added_relations = take list_cap added_relations;
      removed_relations = take list_cap removed_relations;
      changed_relations = take list_cap changed_relations;
      counts = counts;
      truncated =
          ltb list_cap counts.added_entities
          || ltb list_cap counts.removed_entities
          || ltb list_cap counts.added_relations
          || ltb list_cap counts.removed_relations
          || ltb list_cap counts.changed_relations;
      provenance =
          txt
            "entities compared by (kind, qualified name or name, file path); relations by (kind, source key, target key); entity and relation ids hash byte ranges and are never compared";
    }

unfoldable pub architecture_diff :
    (Text → Text)
    → Rows
    → Text
    → List Text
    → Option Text
    → Option Text
    → Option Text
    → Result ArchitectureDiff
architecture_diff debug rows repository_id committed current base head = do
  (base_id, head_id) ← resolve_diff_pair committed current base head
  ok (compare debug rows repository_id base_id head_id)
