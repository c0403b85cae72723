-- ===== src/Engine/Planner.antt =====
-- The query planner of crates/cce-engine/src/planner.rs, and what its routes need of the index
-- (crates/cce-engine/src/retrieval.rs).
pub mod Intent
pub mod Plans
use cce.Prelude.{
  ℕ, Bool, true, false, Option, none, some, List, [], ◌∷◌, ◌++◌, map, Text, txt, if◌then◌else◌,
  to_ascii_lowercase,
}
use cce.Prelude.Words.{Chars}
use cce.Core.Retrieval.{
  QueryIntent, exact_entity, natural_language_behavior, issue_localization, trace, impact,
  architecture, history, precise_dataflow, unknown, intent_name, GraphPolicy, no_graph,
  outgoing_trace, incoming_impact, architecture_boundary, dataflow_required, opportunistic,
  SearchRoute, no_retrieval, exact_symbol, lexical, dense_raw, dense_summary, hybrid, structural,
  knowledge, history_route, diff, zoekt, pattern, reranked,
}
use Intent.{classify}

-- `ViewKind` of crates/cce-core/src/manifest.rs.
pub data ViewKind : Type 0 where
  source_view lexical_view dense_view symbols_view graph_view history_view : ViewKind
  knowledge_view dataflow_view zoekt_view : ViewKind

pub record QueryPlan : Type 0 where
  pub intent : QueryIntent
  pub routes : List SearchRoute
  pub graph_policy : GraphPolicy
  pub required_views : List ViewKind
  pub reasons : List Text

unfoldable pub union_plan : QueryIntent → List Text → QueryPlan
union_plan intent reasons = record {
  intent = intent;
  routes =
      exact_symbol ∷ lexical ∷ zoekt ∷ dense_raw ∷ dense_summary ∷ hybrid ∷ knowledge
      ∷ history_route ∷ structural ∷ [];
  graph_policy = opportunistic;
  required_views = symbols_view ∷ lexical_view ∷ dense_view ∷ [];
  reasons = reasons;
}

abbrev behavior_plan : QueryIntent → Text → QueryPlan
behavior_plan intent reason = record {
  intent = intent;
  routes = lexical ∷ zoekt ∷ dense_raw ∷ dense_summary ∷ hybrid ∷ [];
  graph_policy = no_graph;
  required_views = lexical_view ∷ dense_view ∷ [];
  reasons = reason ∷ [];
}

-- The plan for an intent that the caller gives.
unfoldable pub plan_for : QueryIntent → QueryPlan
unfolding union_plan
plan_for exact_entity = record {
  intent = exact_entity;
  routes = exact_symbol ∷ lexical ∷ zoekt ∷ [];
  graph_policy = no_graph;
  required_views = symbols_view ∷ lexical_view ∷ [];
  reasons = txt "identifier-shaped or definition/reference query" ∷ [];
}
plan_for natural_language_behavior =
    behavior_plan natural_language_behavior
      (txt "behavior query crosses natural-language and source-code vocabularies")
plan_for issue_localization =
    behavior_plan issue_localization
      (txt "issue localization shares the behavior plan; no reranker is configured")
plan_for trace = record {
  intent = trace;
  routes = exact_symbol ∷ lexical ∷ zoekt ∷ dense_raw ∷ structural ∷ [];
  graph_policy = outgoing_trace;
  required_views = symbols_view ∷ lexical_view ∷ graph_view ∷ [];
  reasons = txt "trace query requires direction-preserving structural expansion" ∷ [];
}
plan_for impact = record {
  intent = impact;
  routes = exact_symbol ∷ lexical ∷ zoekt ∷ dense_raw ∷ structural ∷ [];
  graph_policy = incoming_impact;
  required_views = symbols_view ∷ lexical_view ∷ graph_view ∷ [];
  reasons = txt "impact query traverses incoming references and containment" ∷ [];
}
plan_for architecture = record {
  intent = architecture;
  routes = knowledge ∷ dense_summary ∷ structural ∷ lexical ∷ zoekt ∷ [];
  graph_policy = architecture_boundary;
  required_views = knowledge_view ∷ graph_view ∷ lexical_view ∷ [];
  reasons = txt "architecture query needs hierarchy plus representative source evidence" ∷ [];
}
plan_for history = record {
  intent = history;
  routes = history_route ∷ lexical ∷ zoekt ∷ dense_summary ∷ [];
  graph_policy = no_graph;
  required_views = history_view ∷ lexical_view ∷ [];
  reasons = txt "why/history query must not infer rationale from current source alone" ∷ [];
}
plan_for precise_dataflow = record {
  intent = precise_dataflow;
  routes = exact_symbol ∷ structural ∷ [];
  graph_policy = dataflow_required;
  required_views = dataflow_view ∷ symbols_view ∷ [];
  reasons = txt "precise dataflow requires an evidence-backed analysis view" ∷ [];
}
plan_for unknown =
    union_plan unknown
      (txt "unknown intent uses conservative union recall without graph expansion" ∷ [])

abbrev guessed_plan : QueryIntent → QueryPlan
guessed_plan guessed = union_plan guessed (
    txt "intent not supplied; union recall with corroboration-damped expansion"
    ∷ (txt "keyword classifier guessed "
        ++ (intent_name guessed ++ txt " (label only, not routed on)"))
    ∷ [])

unfoldable pub plan : Chars → Text → Option QueryIntent → QueryPlan
unfolding union_plan
plan chars query (some intent) = plan_for intent
plan chars query none = guessed_plan (classify chars query (map to_ascii_lowercase query))

abbrev is_view : ViewKind → ViewKind → Bool
is_view source_view source_view = true
is_view lexical_view lexical_view = true
is_view dense_view dense_view = true
is_view symbols_view symbols_view = true
is_view graph_view graph_view = true
is_view history_view history_view = true
is_view knowledge_view knowledge_view = true
is_view dataflow_view dataflow_view = true
is_view zoekt_view zoekt_view = true
is_view _ _ = false

unfoldable pub has_view : List ViewKind → ViewKind → Bool
has_view [] view = false
has_view (v ∷ vs) view = if is_view v view then true else has_view vs view

abbrev pub views_of : SearchRoute → List ViewKind
views_of no_retrieval = []
views_of exact_symbol = symbols_view ∷ []
views_of lexical = lexical_view ∷ []
views_of dense_raw = dense_view ∷ []
views_of dense_summary = dense_view ∷ []
views_of hybrid = lexical_view ∷ dense_view ∷ []
views_of structural = graph_view ∷ []
views_of knowledge = knowledge_view ∷ []
views_of history_route = history_view ∷ []
views_of diff = history_view ∷ []
views_of zoekt = []
views_of pattern = []
views_of reranked = []

-- The inner loop: each view that is not there yet is pushed.
unfoldable pub push_views : List ViewKind → List ViewKind → List ViewKind
push_views [] views = views
push_views (view ∷ candidates) views =
    push_views candidates (if has_view views view then views else views ++ view ∷ [])

unfoldable pub views_from : List SearchRoute → List ViewKind → List ViewKind
views_from [] views = views
views_from (route ∷ routes) views = views_from routes (push_views (views_of route) views)

unfoldable pub required_views_for_routes : List SearchRoute → List ViewKind
unfolding views_from push_views
required_views_for_routes routes = views_from routes []
