-- ===== src/Engine/Context/Report.antt =====
-- `delivery_report` of crates/cce-engine/src/context.rs: what was packed, against what was found.
use cce.Prelude.{
  Bool, true, false, not, ◌&&◌, Option, none, some, List, map, Text, txt, text_eq, if◌then◌else◌,
}
use cce.Prelude.Lists.{contains, any, keep}
use cce.Prelude.Map.{lookup}
use cce.Prelude.Split.{join}
use cce.Prelude.Words.{has_part}
use cce.Core.Address.{SourceAddress}
use cce.Core.Retrieval.{SearchHit}
use cce.Core.Context.{
  ContextItem, ContextItemKind, orientation, OmissionReason, budget, OmittedHit, DeliveryReport,
  not_verified, no_source_evidence,
}

abbrev pub is_orientation : ContextItemKind → Bool
is_orientation orientation = true
is_orientation _ = false

abbrev pub or_budget : Option OmissionReason → OmissionReason
or_budget none = budget
or_budget (some reason) = reason

abbrev is_addressed : Option SourceAddress → Bool
is_addressed none = false
is_addressed (some _) = true

unfoldable pub included : List ContextItem → List Text
included items =
    map (λ (i : ContextItem). i.id) (keep (λ (i : ContextItem). not (is_orientation i.kind)) items)

unfoldable pub omitted : List Text → List (Text × OmissionReason) → List SearchHit → List OmittedHit
omitted taken reasons hits =
    map
      (λ (hit : SearchHit). record {
        document_id = hit.document_id;
        reason = or_budget (lookup hit.document_id reasons);
      })
      (keep (λ (hit : SearchHit). not (contains taken hit.document_id)) hits)

unfoldable pub delivery_report :
    (Text → Text)
    → List SearchHit
    → List Text
    → List (Text × OmissionReason)
    → List ContextItem
    → List Text
    → DeliveryReport
unfolding included omitted
delivery_report to_lowercase hits taken reasons items terms =
    let shipped = keep (λ (hit : SearchHit). contains taken hit.document_id) hits in
    let snippets = join (txt "\n") (map (λ (hit : SearchHit). to_lowercase hit.snippet) shipped) in
    let evidence =
      any (λ (hit : SearchHit). contains taken hit.document_id && is_addressed hit.address) hits in
    record {
      included_item_ids = included items;
      omitted_hits = omitted taken reasons hits;
      delivered_terms = keep (λ term. has_part term snippets) terms;
      missing_terms = keep (λ term. not (has_part term snippets)) terms;
      witness_verification = if evidence then not_verified else no_source_evidence;
    }
