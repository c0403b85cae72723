-- ===== src/Core/Retrieval.antt =====
-- Data of crates/cce-core/src/retrieval.rs. An `f64` is a number that is only copied: its bits.
use cce.Prelude.{ℕ, Bool, true, false, Option, List, Text, txt}
use cce.Core.Address.{SourceAddress}

pub data QueryIntent : Type 0 where
  exact_entity natural_language_behavior issue_localization trace impact : QueryIntent
  architecture history precise_dataflow unknown : QueryIntent

pub data GraphPolicy : Type 0 where
  no_graph outgoing_trace incoming_impact architecture_boundary : GraphPolicy
  dataflow_required opportunistic : GraphPolicy

pub data SearchRoute : Type 0 where
  no_retrieval exact_symbol lexical dense_raw dense_summary hybrid structural : SearchRoute
  knowledge history_route diff zoekt pattern reranked : SearchRoute

pub data RetrievalRepresentation : Type 0 where
  raw_code signature file_descriptor symbol_summary role_summary : RetrievalRepresentation
  module_summary flow_summary test_behavior commit_summary : RetrievalRepresentation
  commit_diff knowledge_page : RetrievalRepresentation

pub record SearchHit : Type 0 where
  pub document_id : Text
  pub entity_id : Text
  pub region_id : Option Text
  pub symbol_name : Option Text
  pub representation : RetrievalRepresentation
  pub route : SearchRoute
  pub rank : ℕ
  pub score : ℕ
  pub contributing_routes : List SearchRoute
  pub address : Option SourceAddress
  pub evidence : List SourceAddress
  pub snippet : Text
  pub verified_current : Bool
  pub explanation : List Text

pub data VerdictState : Type 0 where
  answered weak_witness abstained : VerdictState

-- `{:?}` of a route and of an intent.
abbrev pub route_name : SearchRoute → Text
route_name no_retrieval = txt "NoRetrieval"
route_name exact_symbol = txt "ExactSymbol"
route_name lexical = txt "Lexical"
route_name dense_raw = txt "DenseRaw"
route_name dense_summary = txt "DenseSummary"
route_name hybrid = txt "Hybrid"
route_name structural = txt "Structural"
route_name knowledge = txt "Knowledge"
route_name history_route = txt "History"
route_name diff = txt "Diff"
route_name zoekt = txt "Zoekt"
route_name pattern = txt "Pattern"
route_name reranked = txt "Reranked"

abbrev pub intent_name : QueryIntent → Text
intent_name exact_entity = txt "ExactEntity"
intent_name natural_language_behavior = txt "NaturalLanguageBehavior"
intent_name issue_localization = txt "IssueLocalization"
intent_name trace = txt "Trace"
intent_name impact = txt "Impact"
intent_name architecture = txt "Architecture"
intent_name history = txt "History"
intent_name precise_dataflow = txt "PreciseDataflow"
intent_name unknown = txt "Unknown"

abbrev pub is_structural : SearchRoute → Bool
is_structural structural = true
is_structural _ = false

abbrev pub is_exact_symbol : SearchRoute → Bool
is_exact_symbol exact_symbol = true
is_exact_symbol _ = false
