-- ===== src/Core/Relation.antt =====
-- crates/cce-core/src/relation.rs. An f32 is its bits, and a JSON object is its text. `Debug` of a
-- string is a parameter.
use cce.Prelude.{◌≡◌, eq_refl, true, ℕ, Bool, List, ◌++◌, Text, txt, nat_eq, ◌==◌}
use cce.Core.Address.{SourceAddress}

pub data RelationKind : Type 0 where
  contains defines imports exports references implements extends type_uses instantiates :
      RelationKind
  calls tests build_depends_on route_handled_by publishes_event subscribes_event : RelationKind
  reads_store writes_store uses_hook serializes_as persists_to changed_with semantic : RelationKind
  other : Text → RelationKind

pub data RelationOrigin : Type 0 where
  compiler scip lsp tree_sitter build_system framework_rule model_inference : RelationOrigin

pub record Relation : Type 0 where
  pub id : Text
  pub source_entity_id : Text
  pub target_entity_id : Text
  pub kind : RelationKind
  pub origin : RelationOrigin
  pub confidence : ℕ
  pub snapshot_id : Text
  pub extractor : Text
  pub evidence : List SourceAddress
  pub attributes : Text

-- `{:?}`, as `Debug` is derived.
unfoldable pub debug_kind : (Text → Text) → RelationKind → Text
debug_kind debug contains = txt "Contains"
debug_kind debug defines = txt "Defines"
debug_kind debug imports = txt "Imports"
debug_kind debug exports = txt "Exports"
debug_kind debug references = txt "References"
debug_kind debug implements = txt "Implements"
debug_kind debug extends = txt "Extends"
debug_kind debug type_uses = txt "TypeUses"
debug_kind debug instantiates = txt "Instantiates"
debug_kind debug calls = txt "Calls"
debug_kind debug tests = txt "Tests"
debug_kind debug build_depends_on = txt "BuildDependsOn"
debug_kind debug route_handled_by = txt "RouteHandledBy"
debug_kind debug publishes_event = txt "PublishesEvent"
debug_kind debug subscribes_event = txt "SubscribesEvent"
debug_kind debug reads_store = txt "ReadsStore"
debug_kind debug writes_store = txt "WritesStore"
debug_kind debug uses_hook = txt "UsesHook"
debug_kind debug serializes_as = txt "SerializesAs"
debug_kind debug persists_to = txt "PersistsTo"
debug_kind debug changed_with = txt "ChangedWith"
debug_kind debug semantic = txt "Semantic"
debug_kind debug (other s) = txt "Other(" ++ debug s ++ txt ")"

abbrev rank : RelationOrigin → ℕ
rank compiler = 0
rank scip = 1
rank lsp = 2
rank tree_sitter = 3
rank build_system = 4
rank framework_rule = 5
rank model_inference = 6

-- The derived `==`.
unfoldable pub same_origin : RelationOrigin → RelationOrigin → Bool
same_origin a b = rank a == rank b

pub same_origin_refl : (a : RelationOrigin) → same_origin a a ≡ true
unfolding same_origin
same_origin_refl a = eq_refl (rank a)
