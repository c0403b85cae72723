-- ===== src/Core/Address.antt =====
-- `SourceAddress` of crates/cce-core/src/address.rs. A `Result` is `ok` or one of the errors that
-- this file returns.
pub mod Normal
use cce.Prelude.{
  ℕ, ◌-◌, Option, none, some, List, [], ◌∷◌, Text, txt, text_eq, ◌==◌, nat_eq, ltb, if◌then◌else◌,
  map, ◌||◌,
}
use cce.Prelude.Split.{split_on, join}
use cce.Prelude.Trim.{is_empty}

pub record SourceAddress : Type 0 where
  pub repository_id : Text
  pub snapshot_id : Text
  pub path : Text
  pub start_byte : ℕ
  pub end_byte : ℕ
  pub start_line : ℕ
  pub end_line : ℕ
  pub symbol_id : Option Text

-- `CceError`, as far as an address can fail.
pub data CceError : Type 0 where
  path_escape : Text → CceError
  invalid_source_range : Text → ℕ → ℕ → CceError

pub data Result (A : Type 0) : Type 0 where
  ok : A → Result A
  err : CceError → Result A

-- `path.replace('\\', "/")`.
abbrev pub slashed : ℕ → ℕ
slashed c = if c == b'\\' then b'/' else c

-- The loop over the components: `none` at the first `..`.
abbrev pub push_piece : Text → Option (List Text) → Option (List Text)
push_piece piece none = none
push_piece piece (some rest) = some (piece ∷ rest)

unfoldable pub normalized : List Text → Option (List Text)
normalized [] = some []
normalized (piece ∷ pieces) =
    let rest = normalized pieces in
    if is_empty piece || piece == txt "."
    then rest
    else (if piece == txt ".." then none else push_piece piece rest)

unfoldable pub normalize_relative_path : Text → Result Text
normalize_relative_path path = elim (normalized (split_on b'/' (map slashed path))) [
  | none ↦ err (path_escape path)
  | some pieces ↦ if is_empty pieces then err (path_escape path) else ok (join (txt "/") pieces)
]

-- The ranges are the start and the end of each.
unfoldable pub new : Text → Text → Text → ℕ × ℕ → ℕ × ℕ → Result SourceAddress
new repository_id snapshot_id path (start_byte, end_byte) (start_line, end_line) =
    elim (normalize_relative_path path) [
      | err e ↦ err e
      | ok path' ↦
          if ltb end_byte start_byte
          then err (invalid_source_range path' start_byte end_byte)
          else ok (record {
            repository_id = repository_id;
            snapshot_id = snapshot_id;
            path = path';
            start_byte = start_byte;
            end_byte = end_byte;
            start_line = start_line;
            end_line = end_line;
            symbol_id = none;
          })
    ]

unfoldable pub with_symbol : Text → SourceAddress → SourceAddress
with_symbol symbol_id address = record address { symbol_id = some symbol_id }

-- `saturating_sub`.
unfoldable pub byte_len : SourceAddress → ℕ
byte_len address = address.end_byte - address.start_byte
