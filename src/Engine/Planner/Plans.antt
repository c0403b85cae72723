-- ===== src/Engine/Planner/Plans.antt =====
-- What a plan depends on, and what it needs.
use cce.Prelude.{
  ℕ, ◌≡◌, ◌≢◌, refl, ap, Bool, true, false, not, Option, none, some, List, [], ◌∷◌, Text, text_eq,
  All, arith, nat_eq,
}
use cce.Prelude.Lists.{any, contains}
use cce.Prelude.Words.{Chars}
use cce.Core.Retrieval.{
  QueryIntent, exact_entity, natural_language_behavior, issue_localization, trace, impact,
  architecture, history, precise_dataflow, unknown,
}
use cce.Engine.Planner.{QueryPlan, plan_for, plan, has_view, required_views_for_routes}
use cce.Engine.Planner.Intent.{has_any_word, is_word_char}
use cce.Prelude.Split.{split_where}

intent-plan_for : (i : QueryIntent) → (plan_for i).intent ≡ i
unfolding plan_for
intent-plan_for exact_entity = refl
intent-plan_for natural_language_behavior = refl
intent-plan_for issue_localization = refl
intent-plan_for trace = refl
intent-plan_for impact = refl
intent-plan_for architecture = refl
intent-plan_for history = refl
intent-plan_for precise_dataflow = refl
intent-plan_for unknown = refl

-- Each required view is one that some route uses.
abbrev pub UsesViews : QueryPlan → Type 0
UsesViews p =
    All (λ view. has_view (required_views_for_routes p.routes) view ≡ true) p.required_views

UsesViews-plan_for : (i : QueryIntent) → i ≢ precise_dataflow → UsesViews (plan_for i)
unfolding plan_for required_views_for_routes has_view
UsesViews-plan_for exact_entity h = (refl, (refl, tt))
UsesViews-plan_for natural_language_behavior h = (refl, (refl, tt))
UsesViews-plan_for issue_localization h = (refl, (refl, tt))
UsesViews-plan_for trace h = (refl, (refl, (refl, tt)))
UsesViews-plan_for impact h = (refl, (refl, (refl, tt)))
UsesViews-plan_for architecture h = (refl, (refl, (refl, tt)))
UsesViews-plan_for history h = (refl, (refl, tt))
UsesViews-plan_for precise_dataflow h = absurd (h refl)
UsesViews-plan_for unknown h = (refl, (refl, (refl, tt)))

split_where-one : (p : ℕ → Bool) (s : Text) → All (λ c. p c ≡ false) s → split_where p s ≡ s ∷ []
unfolding split_where
split_where-one p [] h = refl
split_where-one p (c ∷ s) (h, hs) = rw (h, split_where-one p s hs) refl

module _ (chars : Chars) where
  -- Without a supplied intent the words of the query only choose the label: two queries are given
  -- the same routes, the same graph policy and the same required views, which are those of a
  -- supplied `Unknown`. With a supplied intent the plan has this intent, and the query does not
  -- matter at all.
  pub inferred_intent_is_a_label :
      (query query' : Text) (intent : QueryIntent)
      → ((plan chars query none).routes ≡ (plan chars query' none).routes)
        × ((plan chars query none).routes ≡ (plan chars query' (some unknown)).routes)
        × ((plan chars query none).graph_policy ≡ (plan chars query' (some unknown)).graph_policy)
        × ((plan chars query none).required_views
            ≡ (plan chars query' (some unknown)).required_views)
        × ((plan chars query (some intent)).intent ≡ intent)
        × (plan chars query (some intent) ≡ plan chars query' (some intent))
  unfolding plan plan_for
  inferred_intent_is_a_label query query' intent =
      (refl, refl, refl, refl, intent-plan_for intent, refl)

  -- Whatever the query, and for every supplied intent but precise dataflow: each view that the plan
  -- requires is used by one of its routes.
  pub required_views_are_used :
      (query : Text) (requested : Option QueryIntent)
      → requested ≢ some precise_dataflow
      → UsesViews (plan chars query requested)
  unfolding plan required_views_for_routes has_view
  required_views_are_used query none h = (refl, (refl, (refl, tt)))
  required_views_are_used query (some i) h =
      UsesViews-plan_for i (λ e. h (ap (λ (j : QueryIntent). some j) e))

  not-word :
      (s : Text)
      → All (λ c. is_word_char chars c ≡ true) s
      → All (λ c. not (is_word_char chars c) ≡ false) s
  not-word [] h = tt
  not-word (c ∷ s) (h, hs) = (ap not h, not-word s hs)

  -- In a query that is one run of word characters (alphanumeric or `_`) a keyword is only found if
  -- it is the whole query: a longer identifier that contains it does not count.
  pub keyword_is_a_whole_word :
      (query : Text) (words : List Text)
      → All (λ c. is_word_char chars c ≡ true) query
      → has_any_word chars query words ≡ contains words query
  unfolding has_any_word any
  keyword_is_a_whole_word query words h =
      rw (split_where-one (λ c. not (is_word_char chars c)) query (not-word query h)) (ground arith)
