-- ===== src/Core/Tests.antt =====
-- Runs of the models of crates/cce-core/src.
use cce.Prelude.{Text, [], some, map, ◌++◌, to_ascii_lowercase, ◌≡◌, refl, none, txt, text_eq}
use cce.Prelude.Strings.{list_beq}
use cce.Prelude.Split.{split_on, join, Lacks}
use cce.Prelude.{◌∷◌, is_ascii_alphanumeric, is_ascii_uppercase, is_ascii_lowercase}
use cce.Prelude.Sort.{dedup, sort_by, text_leb}
use cce.Prelude.Words.{Chars}
use cce.Core.Text.{split_identifier_terms, split_chars, split_char}
use cce.Core.Address.{
  SourceAddress, path_escape, ok, err, normalized, normalize_relative_path, new, byte_len,
}
use cce.Core.Filters.{parse_query_filters, no_filters}
use cce.Core.Filters.Quoted.{quoted_value_comes_back}
use cce.Core.Address.Normal.{IsNormal, normalize_sound}

program : Unit {0}
unfolding split_on join list_beq normalized normalize_relative_path new byte_len
program = tt

windows_and_parent :
    (normalize_relative_path (txt "src\\./lib.rs") ≡ ok (txt "src/lib.rs"))
    × (normalize_relative_path (txt "../secret") ≡ err (path_escape (txt "../secret")))
unfolding program
windows_and_parent = (refl, refl)

normalize_sound_example :
    (normalize_relative_path (txt "a//b") ≡ ok (txt "a/b")
      → IsNormal (txt "a/b") × (normalize_relative_path (txt "a/b") ≡ ok (txt "a/b")))
    × (IsNormal (txt "a//b") → normalize_relative_path (txt "a//b") ≡ ok (txt "a//b"))
normalize_sound_example = normalize_sound (txt "a//b") (txt "a/b")

abbrev lib_rs : SourceAddress
lib_rs = record {
  repository_id = txt "repo";
  snapshot_id = txt "snap";
  path = txt "src/lib.rs";
  start_byte = 0;
  end_byte = 10;
  start_line = 1;
  end_line = 2;
  symbol_id = none;
}

abbrev template : Text
template = txt "f (a): x"

template-Lacks : Lacks b'\'' template
template-Lacks = (refl, (refl, (refl, (refl, (refl, (refl, (refl, (refl, tt))))))))

quoted_value_comes_back_example :
    (parse_query_filters (txt "pat:'" ++ (template ++ txt "'"))
      ≡ ([], record no_filters { pattern = some template }))
    × (parse_query_filters (txt "path:'" ++ (template ++ txt "'"))
        ≡ ([], record no_filters { path_prefix = some template }))
    × (parse_query_filters (txt "lang:'" ++ (template ++ txt "'"))
        ≡ ([], record no_filters { language = some (map to_ascii_lowercase template) }))
quoted_value_comes_back_example = quoted_value_comes_back template template-Lacks refl

abbrev ascii : Chars
ascii = record {
  is_alphanumeric = is_ascii_alphanumeric;
  is_uppercase = is_ascii_uppercase;
  is_lowercase = is_ascii_lowercase;
}

camel_and_snake :
    (split_identifier_terms ascii (txt "setViewSet") ≡ txt "set" ∷ txt "view" ∷ [])
    × (split_identifier_terms ascii (txt "set_view_set") ≡ txt "set" ∷ txt "view" ∷ [])
unfolding split_identifier_terms split_chars split_char dedup sort_by text_leb list_beq
camel_and_snake = (refl, refl)
