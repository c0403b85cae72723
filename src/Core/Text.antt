-- ===== src/Core/Text.antt =====
-- Identifier terms of crates/cce-core/src/text.rs.
pub mod Terms
use cce.Prelude.{
  ℕ, Bool, true, false, not, ◌&&◌, ◌||◌, List, [], ◌∷◌, ◌++◌, map, Text, text_eq, ◌==◌, leb,
  if◌then◌else◌, to_ascii_lowercase,
}
use cce.Prelude.Lists.{keep}
use cce.Prelude.Sort.{sort_by, dedup}
use cce.Prelude.Trim.{is_empty}
use cce.Prelude.Words.{Chars}

abbrev in_block : ℕ → ℕ → ℕ → Bool
in_block lo hi c = leb lo c && leb c hi

unfoldable pub has_cjk : ℕ → Bool
has_cjk c =
    in_block 0x2E80 0x31EF c
    || in_block 0x3400 0x9FFF c
    || in_block 0xAC00 0xD7AF c
    || in_block 0xF900 0xFAFF c
    || in_block 0xFF00 0xFFEF c
    || in_block 0x20000 0x2EBEF c

-- The variables of the loop.
pub record Splitting : Type 0 where
  pub terms : List Text
  pub current : Text
  pub previous_lower : Bool

-- `terms.push(current.to_ascii_lowercase()); current.clear()`, unless `current` is empty.
abbrev pub push_term : Splitting → Splitting
push_term st =
    if is_empty st.current
    then st
    else record st { terms = st.terms ++ map to_ascii_lowercase st.current ∷ []; current = [] }

module _ (chars : Chars) where
  open chars use {is_alphanumeric, is_uppercase, is_lowercase}

  abbrev pub add_char : ℕ → Splitting → Splitting
  add_char c st = record st { previous_lower = is_lowercase c; current = st.current ++ c ∷ [] }

  unfoldable pub split_char : ℕ → Splitting → Splitting
  split_char c st =
      if is_alphanumeric c
      then add_char c (if st.previous_lower && is_uppercase c then push_term st else st)
      else (if is_empty st.current then st else record (push_term st) { previous_lower = false })

  unfoldable pub split_chars : Text → Splitting → Splitting
  split_chars [] st = st
  split_chars (c ∷ s) st = split_chars s (split_char c st)

  unfoldable pub split_identifier_terms : Text → List Text
  split_identifier_terms name = dedup (
      sort_by (λ t. t)
        (push_term
          (split_chars name (record { terms = []; current = []; previous_lower = false }))).terms)

  -- The standard library's lower-casing of a whole text is an argument.
  unfoldable pub folded_identifier : (Text → Text) → Text → Text
  folded_identifier to_lowercase name = to_lowercase (keep is_alphanumeric name)
