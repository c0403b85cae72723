-- ===== src/Engine/Tests/PlannerRuns.antt =====
-- Runs of crates/cce-engine/src/planner.rs.
use cce.Prelude.{
  ◌≡◌, refl, none, some, txt, text_eq, is_ascii_alphanumeric, is_ascii_uppercase,
  is_ascii_lowercase,
}
use cce.Prelude.Strings.{list_beq}
use cce.Prelude.Lists.{any, contains, keep}
use cce.Prelude.Split.{split_where, split_on}
use cce.Prelude.Trim.{starts_with}
use cce.Prelude.Words.{is_whitespace, has_part}
use cce.Prelude.Words.{Chars}
use cce.Core.Retrieval.{impact, exact_entity, natural_language_behavior, trace, unknown}
use cce.Engine.Planner.{plan, union_plan}
use cce.Engine.Planner.Intent.{
  contains_any, has_any_word, has_hump, looks_like_code, is_exact_entity_query, asks_dataflow,
  asks_history, asks_impact, asks_trace, asks_architecture, asks_issue, classify,
}
use cce.Engine.Planner.Plans.{inferred_intent_is_a_label}

abbrev ascii : Chars
ascii = record {
  is_alphanumeric = is_ascii_alphanumeric;
  is_uppercase = is_ascii_uppercase;
  is_lowercase = is_ascii_lowercase;
}

program : Unit {0}
unfolding list_beq any contains keep split_on starts_with is_whitespace has_part split_where
    contains_any has_any_word has_hump looks_like_code is_exact_entity_query asks_dataflow
    asks_history asks_impact asks_trace asks_architecture asks_issue classify plan union_plan
program = tt

labels :
    ((plan ascii (txt "what breaks if it stops") none).intent ≡ impact)
    × ((plan ascii (txt "engine.rs") none).intent ≡ exact_entity)
    × ((plan ascii (txt "line break handling") none).intent ≡ natural_language_behavior)
unfolding program
labels = (refl, refl, refl)

inferred_intent_is_a_label_example :
    let a = txt "trace" in
    let b = txt "b" in
    ((plan ascii a none).routes ≡ (plan ascii b none).routes)
    × ((plan ascii a none).routes ≡ (plan ascii b (some unknown)).routes)
    × ((plan ascii a none).graph_policy ≡ (plan ascii b (some unknown)).graph_policy)
    × ((plan ascii a none).required_views ≡ (plan ascii b (some unknown)).required_views)
    × ((plan ascii a (some trace)).intent ≡ trace)
    × (plan ascii a (some trace) ≡ plan ascii b (some trace))
inferred_intent_is_a_label_example = inferred_intent_is_a_label ascii (txt "trace") (txt "b") trace
