-- ===== src/Engine/Tests/ContextRuns.antt =====
-- Runs of crates/cce-engine/src/context.rs.
use cce.Prelude.{
  ◌≡◌, ◌≤◌, ◌&&◌, not, refl, true, none, some, [], ◌∷◌, Text, txt, text_eq, All, ◌==◌, map,
}
use cce.Prelude.Strings.{list_beq}
use cce.Prelude.Lists.{any, contains, keep}
use cce.Prelude.Map.{lookup, insert, remove}
use cce.Prelude.Split.{split_on, join}
use cce.Prelude.Trim.{starts_with}
use cce.Prelude.Decimal.{decimal}
use cce.Prelude.Components.{components_of, file_name, extension}
use cce.Core.Retrieval.{
  SearchHit, raw_code, test_behavior, lexical, exact_entity, no_graph, answered,
}
use cce.Core.Context.{OmittedHit, duplicate_range}
use cce.Engine.Context.Render.{role_of, is_config_path, title_of, render_hit, estimate_tokens}
use cce.Engine.Context.Admission.{
  is_range_seen, is_file_full, is_entity_seen, commit, commit_range, item_for, render_item,
}
use cce.Engine.Context.Report.{included, omitted, delivery_report}
use cce.Engine.Context.{
  Search, attempt, find_role, preselect, fill, oriented, orientation_item, orientation_text,
  packing, pack, classify, quota_roles,
}
use cce.Engine.Context.Budget.{pack_within_budget, total_tokens}
use cce.Engine.Context.Ranges.{pack_spreads, items_of, items_in}
use cce.Engine.Context.Delivery.{LastRefused, delivery_is_complete}

program : Unit {0}
unfolding list_beq any contains keep lookup insert remove split_on join starts_with decimal
    components_of file_name extension is_config_path role_of title_of render_hit estimate_tokens
    is_range_seen is_file_full is_entity_seen commit commit_range item_for render_item included
    omitted delivery_report attempt find_role preselect fill oriented orientation_item
    orientation_text packing pack
program = tt

abbrev hit : Text → SearchHit
hit id = record {
  document_id = id;
  entity_id = id;
  region_id = none;
  symbol_name = none;
  representation = raw_code;
  route = lexical;
  rank = 1;
  score = 0;
  contributing_routes = [];
  address = some (record {
    repository_id = [];
    snapshot_id = [];
    path = txt "a.rs";
    start_byte = 0;
    end_byte = 9;
    start_line = 1;
    end_line = 1;
    symbol_id = none;
  });
  evidence = [];
  snippet = txt "fn a";
  verified_current = true;
  explanation = [];
}

-- A hit, a second one of the same range that is a test, and a third one of that range.
abbrev search : Search
search = record {
  repository_id = [];
  snapshot_id = [];
  query = [];
  intent = exact_entity;
  routes = [];
  graph_policy = no_graph;
  reasons = [];
  views = [];
  hits = hit (txt "d1") ∷ record (hit (txt "d2")) { representation = test_behavior } ∷ [];
  missing_capabilities = [];
  verdict = answered;
  verdict_reasons = [];
  distinguishing_terms = [];
  latency_ms = 0;
}

-- The test takes its role's slot first, so that the hit that ranks higher is a duplicate.
the_test_ships :
    (included (packing search 30).items ≡ txt "d2" ∷ [])
    × (omitted (packing search 30).taken (packing search 30).last_rejection search.hits
        ≡ record { document_id = txt "d1"; reason = duplicate_range } ∷ [])
unfolding program
the_test_ships = (refl, refl)

abbrev id_text : Text → Text
id_text s = s

pack_within_budget_example :
    ((pack id_text search 30).used_tokens ≤ 30)
    × ((pack id_text search 30).used_tokens ≡ total_tokens (pack id_text search 30).items)
pack_within_budget_example = pack_within_budget id_text search 30

pack_spreads_example :
    (items_of (txt "a.rs", (0, 9)) (pack id_text search 30).items ≤ 1)
    × (items_in (txt "a.rs") (pack id_text search 30).items ≤ 4)
pack_spreads_example = pack_spreads id_text search 30 (txt "a.rs", (0, 9)) (txt "a.rs")

delivery_is_complete_example :
    let p = packing search 30 in
    let gaps = omitted p.taken p.last_rejection search.hits in
    (any (λ (o : OmittedHit). o.document_id == txt "d1") gaps ≡ (
      any (λ (h : SearchHit). h.document_id == txt "d1") search.hits
      && not (contains (included p.items) (txt "d1"))))
    × All
        (λ (o : OmittedHit).
          LastRefused search.snapshot_id 30 search.hits
            (preselect search.snapshot_id 30
              (map classify search.hits)
              quota_roles
              (oriented 30 search))
            o.document_id
            o.reason)
        gaps
delivery_is_complete_example = delivery_is_complete search 30 (txt "d1")
