-- ===== src/Gateway/Json.antt =====
-- What the gateway uses of `serde_json`, whose code is not part of the repository.
use cce.Prelude.{Option, List, Text}

pub record Json : Type 1 where
  pub Value : Type 0
  pub Object : Type 0
  pub as_object : Value → Option Object
  pub object : Object → Value
  pub string : Text → Value
  pub put_member : Text → Value → Object → Object
  pub get_member : Text → Value → Option Value
  pub as_array : Value → Option (List Value)
  pub as_str : Value → Option Text
