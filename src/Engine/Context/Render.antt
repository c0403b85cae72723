-- ===== src/Engine/Context/Render.antt =====
-- How crates/cce-engine/src/context.rs classifies, prints and measures a hit.
use cce.Prelude.{
  ℕ, ◌+◌, ◌/◌, Bool, false, ◌||◌, Option, none, some, List, [], ◌∷◌, ◌++◌, map, Text, txt, text_eq,
  ◌==◌, nat_eq, if◌then◌else◌, length, to_ascii_lowercase,
}
use cce.Prelude.Lists.{keep, any, contains}
use cce.Prelude.Split.{join}
use cce.Prelude.Decimal.{decimal}
use cce.Prelude.Components.{file_name, extension}
use cce.Core.Address.{SourceAddress}
use cce.Core.Retrieval.{
  SearchHit, RetrievalRepresentation, test_behavior, commit_summary, role_summary, module_summary,
  flow_summary, knowledge_page, signature, route_name, is_structural, raw_code, file_descriptor,
  symbol_summary, commit_diff,
}

pub data ContextRole : Type 0 where
  target contract caller test config history knowledge : ContextRole

abbrev is_text : Text → Option Text → Bool
is_text s none = false
is_text s (some t) = t == s

abbrev extension_in : List Text → Option Text → Bool
extension_in names none = false
extension_in names (some e) =
    any (λ candidate. map to_ascii_lowercase e == map to_ascii_lowercase candidate) names

unfoldable pub is_config_path : Text → Bool
is_config_path path =
    extension_in (txt "toml" ∷ txt "yaml" ∷ txt "yml" ∷ txt "lock" ∷ []) (extension path)
    || is_text (txt "package.json") (file_name path)

abbrev is_config_address : Option SourceAddress → Bool
is_config_address none = false
is_config_address (some address) = is_config_path address.path

abbrev role_by_place : SearchHit → ContextRole
role_by_place hit =
    if is_structural hit.route
    then caller
    else (if is_config_address hit.address then config else target)

abbrev role_for : RetrievalRepresentation → SearchHit → ContextRole
role_for test_behavior hit = test
role_for commit_summary hit = history
role_for role_summary hit = knowledge
role_for module_summary hit = knowledge
role_for flow_summary hit = knowledge
role_for knowledge_page hit = knowledge
role_for signature hit = if is_structural hit.route then caller else contract
role_for raw_code hit = role_by_place hit
role_for file_descriptor hit = role_by_place hit
role_for symbol_summary hit = role_by_place hit
role_for commit_diff hit = role_by_place hit

unfoldable pub role_of : SearchHit → ContextRole
role_of hit = role_for hit.representation hit

abbrev place_of : SourceAddress → Text
place_of address =
    address.path
    ++ (txt ":" ++ (decimal address.start_line ++ (txt "-" ++ decimal address.end_line)))

unfoldable pub title_of : SearchHit → Text
title_of hit = elim hit.address [
  | some address ↦ place_of address
  | none ↦ elim hit.symbol_name [ some name ↦ name | none ↦ hit.entity_id ]
]

abbrev source_of : Option SourceAddress → Text
source_of none = txt "no direct source range"
source_of (some address) =
    place_of address
    ++ (txt " bytes " ++ (decimal address.start_byte ++ (txt ".." ++ decimal address.end_byte)))

unfoldable pub render_hit : SearchHit → Text
render_hit hit =
    txt "Source: "
    ++ (source_of hit.address
        ++ (txt "\nRoute: "
            ++ (route_name hit.route
                ++ (txt "; routes: ["
                    ++ (join (txt ", ") (map route_name hit.contributing_routes)
                        ++ (txt "]\nEvidence:\n" ++ hit.snippet))))))

abbrev code_punctuation : Text → ℕ
code_punctuation value = length (keep (contains (txt "{}[]();:,.<>/\\")) value)

-- A text is shorter than `usize::MAX`, so that `saturating_add` adds.
unfoldable pub estimate_tokens : Text → ℕ
estimate_tokens value = (length value + code_punctuation value) / 4 + 1
