-- ===== src/Engine/Tests/SnapshotDiffRuns.antt =====
-- Runs of crates/cce-engine/src/snapshot_diff.rs.
use mathlib.Core.List.{Permᴰ}
use mathlib.Core.List.Permᴰ
use cce.Prelude.{
  ◌-◌, ◌≡◌, refl, none, some, List, [], ◌∷◌, map, Text, txt, text_eq, pair_eq, ◌==◌, count, ℕ,
}
use cce.Prelude.Strings.{list_beq}
use cce.Prelude.Lists.{any, keep}
use cce.Prelude.Map.{lookup, insert, remove}
use cce.Prelude.Sort.{text_leb}
use cce.Prelude.Buckets.{push_bucket, bucket, pair_order, text_ordered, pair_ordered}
use cce.Prelude.Buckets.Leftovers.{bucketed, leftovers}
use cce.Core.Entity.{CodeEntity, EntityKind, function, struct}
use cce.Core.Entity
use cce.Core.Relation
use cce.Core.Relation.{Relation, RelationOrigin, calls, tree_sitter, scip, same_origin}
use cce.Engine.SnapshotDiff.{resolve_diff_pair, among, entry_after, ok, err, view_unavailable}
use cce.Engine.SnapshotDiff.Keys.{
  entity_key, entity_ref, entity_map, relation_key, relation_ref, endpoint_key, endpoint_ref,
  unresolved_key, unresolved_ref, endpoint_eq, endpoints_eq, entity_key_eq, relation_key_eq,
}
use cce.Engine.SnapshotDiff.Delta.{
  entity_delta, relation_delta, key_entities, key_relations, drifted, changed_relation,
  changed_pairs, changed_in,
}
use cce.Engine.SnapshotDiff.Counted.{
  ref_key, diff_key, entities_of, relations_of, entity_delta_counts, relation_delta_counts,
}
use cce.Engine.SnapshotDiff.Unchanged.{SameEdges, renaming_is_no_change}

program : Unit {0}
unfolding list_beq any keep lookup insert remove text_leb push_bucket bucket pair_order bucketed
    leftovers Entity.debug_kind Relation.debug_kind same_origin resolve_diff_pair among entry_after
    entity_key entity_ref entity_map relation_key relation_ref endpoint_key endpoint_ref
    unresolved_key unresolved_ref entity_delta relation_delta key_entities key_relations drifted
    changed_relation changed_pairs changed_in ref_key diff_key entities_of relations_of
program = tt

abbrev entity : Text → EntityKind → Text → CodeEntity
entity id kind name = record {
  id = id;
  kind = kind;
  name = name;
  qualified_name = none;
  signature = none;
  language = none;
  region_id = none;
  address = none;
  capabilities = [];
  attributes = txt "{}";
}

abbrev edge : Text → Text → Text → RelationOrigin → Relation
edge id source target origin = record {
  id = id;
  source_entity_id = source;
  target_entity_id = target;
  kind = calls;
  origin = origin;
  confidence = 0x3f80_0000;
  snapshot_id = txt "s";
  extractor = txt "x";
  evidence = [];
  attributes = txt "{}";
}

-- In the head two functions `f` stand where the base has one, and `S` is gone.
abbrev base : List CodeEntity
base = entity (txt "1") function (txt "f") ∷ entity (txt "2") struct (txt "S") ∷ []

abbrev head : List CodeEntity
head = entity (txt "7") function (txt "f") ∷ entity (txt "8") function (txt "f") ∷ []

abbrev calls_base : List Relation
calls_base = edge (txt "e") (txt "1") (txt "gone") tree_sitter ∷ []

abbrev calls_head : List Relation
calls_head = edge (txt "g") (txt "7") (txt "gone") scip ∷ []

entities_run : entity_delta base head ≡ (
  entity_ref (entity (txt "8") function (txt "f")) ∷ [],
  entity_ref (entity (txt "2") struct (txt "S")) ∷ [],
)
unfolding program
entities_run = refl

drift_run :
    map (λ c. c.head_relation_id) (relation_delta (λ t. t) calls_base calls_head base head).1.1
    ≡ txt "g" ∷ []
unfolding program
drift_run = refl

previous :
    resolve_diff_pair (txt "c" ∷ txt "b" ∷ txt "a" ∷ []) (some (txt "b")) none none
    ≡ ok (txt "a", txt "b")
unfolding program
previous = refl

oldest :
    resolve_diff_pair (txt "b" ∷ txt "a" ∷ []) (some (txt "b")) none (some (txt "a"))
    ≡ err (view_unavailable (txt "diff") (txt "no earlier committed snapshot to diff against"))
unfolding program
oldest = refl

entity_delta_counts_example :
    (count (λ ref. ref_key ref == (txt "Function", (txt "f", []))) (entity_delta base head).0
      ≡ entities_of (txt "Function", (txt "f", [])) head
        - entities_of (txt "Function", (txt "f", [])) base)
    × (count (λ ref. ref_key ref == (txt "Function", (txt "f", []))) (entity_delta base head).1
        ≡ entities_of (txt "Function", (txt "f", [])) base
          - entities_of (txt "Function", (txt "f", [])) head)
entity_delta_counts_example = entity_delta_counts base head (txt "Function", (txt "f", []))

abbrev key : Text × ((Text × (Text × Text)) × (Text × (Text × Text)))
key = (txt "Calls", ((txt "Function", (txt "f", [])), (txt "Unknown", (txt "gone", []))))

relation_delta_counts_example :
    (count (λ r. diff_key (λ t. t) r == key) (relation_delta (λ t. t) calls_base [] base head).0
      ≡ relations_of (λ t. t) key head [] - relations_of (λ t. t) key base calls_base)
    × (count (λ r. diff_key (λ t. t) r == key) (relation_delta (λ t. t) calls_base [] base head).1.0
        ≡ relations_of (λ t. t) key base calls_base - relations_of (λ t. t) key head [])
relation_delta_counts_example = relation_delta_counts (λ t. t) calls_base [] base head key

-- Two edges of one key and different confidence: as they were, and in the other order.
abbrev twin : Text → ℕ → Relation
twin id confidence = record (edge id (txt "1") (txt "gone") tree_sitter) { confidence = confidence }

reordered_run :
    map
      (λ c. c.head_relation_id)
      (relation_delta
        (λ t. t)
        (twin (txt "a") 1 ∷ twin (txt "b") 2 ∷ [])
        (twin (txt "c") 2 ∷ twin (txt "d") 1 ∷ [])
        base
        base).1.1
    ≡ txt "c" ∷ txt "d" ∷ []
unfolding program
reordered_run = refl

-- The entities and the relation of the base under other ids, and in another order.
abbrev moved : List CodeEntity
moved = entity (txt "5") struct (txt "S") ∷ entity (txt "6") function (txt "f") ∷ []

abbrev moved_calls : List Relation
moved_calls = edge (txt "h") (txt "6") (txt "gone") tree_sitter ∷ []

moved_edges : SameEdges (λ t. t) (entity_map base []) (entity_map moved []) calls_base moved_calls
unfolding program
moved_edges = record { keys = Permᴰ.refl _; agree = (((λ e. (refl, refl)), tt), tt) }

moved_keys : Permᴰ (map entity_key base) (map entity_key moved)
unfolding program
moved_keys = Permᴰ.swap refl refl

renaming_is_no_change_example :
    (entity_delta base moved ≡ ([], []))
    × (relation_delta (λ t. t) calls_base moved_calls base moved ≡ ([], ([], [])))
renaming_is_no_change_example =
    renaming_is_no_change (λ t. t) base moved calls_base moved_calls moved_keys moved_edges
