-- ===== src/Core/Entity.antt =====
-- crates/cce-core/src/entity.rs. A JSON object is its text.
use cce.Prelude.{Option, List, Text, txt}
use cce.Core.Address.{SourceAddress}

pub data EntityKind : Type 0 where
  repository directory file package_ module_ namespace class interface trait struct enum :
      EntityKind
  function method field constant route schema test configuration concept commit : EntityKind
  unknown : EntityKind

pub record CodeEntity : Type 0 where
  pub id : Text
  pub kind : EntityKind
  pub name : Text
  pub qualified_name : Option Text
  pub signature : Option Text
  pub language : Option Text
  pub region_id : Option Text
  pub address : Option SourceAddress
  pub capabilities : List Text
  pub attributes : Text

-- `{:?}`, as `Debug` is derived.
unfoldable pub debug_kind : EntityKind → Text
debug_kind repository = txt "Repository"
debug_kind directory = txt "Directory"
debug_kind file = txt "File"
debug_kind package_ = txt "Package"
debug_kind module_ = txt "Module"
debug_kind namespace = txt "Namespace"
debug_kind class = txt "Class"
debug_kind interface = txt "Interface"
debug_kind trait = txt "Trait"
debug_kind struct = txt "Struct"
debug_kind enum = txt "Enum"
debug_kind function = txt "Function"
debug_kind method = txt "Method"
debug_kind field = txt "Field"
debug_kind constant = txt "Constant"
debug_kind route = txt "Route"
debug_kind schema = txt "Schema"
debug_kind test = txt "Test"
debug_kind configuration = txt "Configuration"
debug_kind concept = txt "Concept"
debug_kind commit = txt "Commit"
debug_kind unknown = txt "Unknown"
