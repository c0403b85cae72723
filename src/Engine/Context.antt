-- ===== src/Engine/Context.antt =====
-- The context packer of crates/cce-engine/src/context.rs. A set of ids is a list. `to_lowercase` of
-- a whole text is an argument, since its tables are the standard library's.
pub mod Render
pub mod Admission
pub mod Report
pub mod Steps
pub mod Budget
pub mod Ranges
pub mod Delivery
use cce.Prelude.{
  ℕ, ◌+◌, ◌-◌, Bool, true, false, not, ◌&&◌, Option, none, some, List, [], ◌∷◌, ◌++◌, map, Text,
  txt, text_eq, ◌==◌, leb, if◌then◌else◌,
}
use cce.Prelude.Lists.{contains, any}
use cce.Prelude.Map.{insert}
use cce.Prelude.Split.{join}
use cce.Prelude.Words.{first_word}
use cce.Core.Retrieval.{
  SearchHit, SearchRoute, hybrid, QueryIntent, GraphPolicy, VerdictState, weak_witness, answered,
  abstained, intent_name, route_name,
}
use cce.Core.Context.{ContextItem, orientation, OmissionReason, Uncertainty, DeliveryReport}
use Render.{
  ContextRole, target, test, contract, caller, config, history, knowledge, role_of, estimate_tokens,
}
use Admission.{Quotas, Rendered, admitted, rejected, render_item}
use Report.{delivery_report}

-- What the packer reads of a `SearchResult`. A view is its kind and its state, printed.
pub record Search : Type 0 where
  pub repository_id : Text
  pub snapshot_id : Text
  pub query : Text
  pub intent : QueryIntent
  pub routes : List SearchRoute
  pub graph_policy : GraphPolicy
  pub reasons : List Text
  pub views : List (Text × Text)
  pub hits : List SearchHit
  pub missing_capabilities : List Text
  pub verdict : VerdictState
  pub verdict_reasons : List Text
  pub distinguishing_terms : List Text
  pub latency_ms : ℕ

pub record ContextPack : Type 0 where
  pub repository_id : Text
  pub snapshot_id : Text
  pub query : Text
  pub intent : QueryIntent
  pub plan_routes : List SearchRoute
  pub graph_policy : Option GraphPolicy
  pub budget_tokens : ℕ
  pub used_tokens : ℕ
  pub latency_ms : ℕ
  pub search_latency_ms : Option ℕ
  pub search_verdict : Option VerdictState
  pub delivery_report : Option DeliveryReport
  pub items : List ContextItem
  pub uncertainties : List Uncertainty
  pub missing_capabilities : List Text

-- The variables of `pack`.
pub record Packing : Type 0 where
  pub items : List ContextItem
  pub used_tokens : ℕ
  pub quotas : Quotas
  pub taken : List Text
  pub last_rejection : List (Text × OmissionReason)

abbrev pub Classified : Type 0
Classified = ContextRole × SearchHit

unfoldable pub orientation_text : Search → Text
orientation_text s =
    txt "Snapshot: "
    ++ (s.snapshot_id
        ++ (txt "\nIntent: "
            ++ (intent_name s.intent
                ++ (txt "\nRoutes: "
                    ++ (join (txt ", ") (map route_name s.routes)
                        ++ (txt "\nViews: "
                            ++ (join (txt ", ")
                                  (map (λ (v : Text × Text). v.0 ++ (txt "=" ++ v.1)) s.views)
                                ++ (txt "\nPlanner rationale: "
                                    ++ (join (txt "; ") s.reasons
                                        ++ txt
                                            "\nAll summaries and derived relations are navigation aids; cited source is authoritative.")))))))))

-- The bits of 1.0.
abbrev one_f64 : ℕ
one_f64 = 4607182418800017408

unfoldable pub orientation_item : Search → ContextItem
orientation_item s = record {
  id = txt "orientation";
  kind = orientation;
  title = txt "Repository context orientation";
  body = orientation_text s;
  estimated_tokens = estimate_tokens (orientation_text s);
  provenance = record {
    why_retrieved = txt "planner and view-manifest orientation";
    route = hybrid;
    rank = 0;
    score = one_f64;
    snapshot_id = s.snapshot_id;
    verified_current = true;
    symbol_name = none;
    source_address = none;
    evidence_addresses = [];
  };
}

abbrev pub no_quotas : Quotas
no_quotas = record { seen_entities = []; seen_ranges = []; ranges_per_file = [] }

unfoldable pub oriented : ℕ → Search → Packing
oriented budget_tokens s =
    let tokens = estimate_tokens (orientation_text s) in
    let fits = leb tokens budget_tokens in
    record {
      items = if fits then orientation_item s ∷ [] else [];
      used_tokens = if fits then tokens else 0;
      quotas = no_quotas;
      taken = [];
      last_rejection = [];
    }

abbrev pub settle : SearchHit → Rendered → Packing → Packing
settle hit (admitted item q) p = record p {
  items = p.items ++ item ∷ [];
  used_tokens = p.used_tokens + item.estimated_tokens;
  quotas = q;
  taken = hit.document_id ∷ p.taken;
}
settle hit (rejected reason) p = record p {
  last_rejection = insert hit.document_id reason p.last_rejection;
}

unfoldable pub attempt : Text → ℕ → Classified → Packing → Packing
attempt snapshot_id budget_tokens (role, hit) p =
    settle hit (render_item snapshot_id budget_tokens p.used_tokens role hit p.quotas) p

abbrev is_role : ContextRole → ContextRole → Bool
is_role test test = true
is_role contract contract = true
is_role caller caller = true
is_role config config = true
is_role history history = true
is_role knowledge knowledge = true
is_role target target = true
is_role _ _ = false

-- `classified.iter().find(…)`.
unfoldable pub find_role : ContextRole → List Text → List Classified → Option Classified
find_role role taken [] = none
find_role role taken ((r, hit) ∷ cs) =
    let rest = find_role role taken cs in
    if is_role r role && not (contains taken hit.document_id) then some (r, hit) else rest

abbrev pub quota_roles : List ContextRole
quota_roles = test ∷ contract ∷ caller ∷ config ∷ history ∷ knowledge ∷ []

unfoldable pub preselect : Text → ℕ → List Classified → List ContextRole → Packing → Packing
preselect snapshot_id budget_tokens cs [] p = p
preselect snapshot_id budget_tokens cs (role ∷ roles) p =
    preselect snapshot_id budget_tokens cs roles (elim (find_role role p.taken cs) [
      | none ↦ p
      | some (_, hit) ↦ attempt snapshot_id budget_tokens (role, hit) p
    ])

unfoldable pub fill : Text → ℕ → List Classified → Packing → Packing
fill snapshot_id budget_tokens [] p = p
fill snapshot_id budget_tokens ((role, hit) ∷ cs) p = fill snapshot_id budget_tokens cs (
    if contains p.taken hit.document_id then p else attempt snapshot_id budget_tokens (role, hit) p)

abbrev pub classify : SearchHit → Classified
classify hit = (role_of hit, hit)

unfoldable pub packing : Search → ℕ → Packing
packing s budget_tokens =
    let cs = map classify s.hits in
    fill s.snapshot_id budget_tokens cs
      (preselect s.snapshot_id budget_tokens cs quota_roles (oriented budget_tokens s))

abbrev or_unknown : Option Text → Text
or_unknown none = txt "unknown"
or_unknown (some word) = word

unfoldable pub missing_gap : Text → Uncertainty
missing_gap message = record {
  capability = or_unknown (first_word message);
  message = message;
  recommended_action = some (txt "verify against source or build the missing view");
}

unfoldable pub add_reasons : List Text → List Uncertainty → List Uncertainty
add_reasons [] gaps = gaps
add_reasons (reason ∷ reasons) gaps = add_reasons reasons (
    if any (λ (gap : Uncertainty). gap.message == reason) gaps
    then gaps
    else gaps
      ++ (record {
        capability = txt "evidence_witness";
        message = reason;
        recommended_action = some (txt "inspect the cited evidence or run a drill-down query");
      })
        ∷ [])

abbrev witness_gaps : VerdictState → List Text → List Uncertainty → List Uncertainty
witness_gaps weak_witness reasons gaps = add_reasons reasons gaps
witness_gaps answered reasons gaps = gaps
witness_gaps abstained reasons gaps = gaps

unfoldable pub pack : (Text → Text) → Search → ℕ → ContextPack
pack to_lowercase s budget_tokens =
    let p = packing s budget_tokens in
    record {
      repository_id = s.repository_id;
      snapshot_id = s.snapshot_id;
      query = s.query;
      intent = s.intent;
      plan_routes = s.routes;
      graph_policy = some s.graph_policy;
      budget_tokens = budget_tokens;
      used_tokens = p.used_tokens;
      latency_ms = s.latency_ms;
      search_latency_ms = some s.latency_ms;
      search_verdict = some s.verdict;
      delivery_report = some (
          delivery_report to_lowercase s.hits p.taken p.last_rejection p.items
            s.distinguishing_terms);
      items = p.items;
      uncertainties =
          witness_gaps s.verdict s.verdict_reasons (map missing_gap s.missing_capabilities);
      missing_capabilities = s.missing_capabilities;
    }
