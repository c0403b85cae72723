-- ===== src/Core/Context.antt =====
-- Data of crates/cce-core/src/context.rs.
use cce.Prelude.{ℕ, Bool, Option, List, Text}
use cce.Core.Address.{SourceAddress}
use cce.Core.Retrieval.{SearchRoute}

pub data ContextItemKind : Type 0 where
  orientation entry_point source contract relation_path test config history knowledge :
      ContextItemKind

pub record ContextProvenance : Type 0 where
  pub why_retrieved : Text
  pub route : SearchRoute
  pub rank : ℕ
  pub score : ℕ
  pub snapshot_id : Text
  pub verified_current : Bool
  pub symbol_name : Option Text
  pub source_address : Option SourceAddress
  pub evidence_addresses : List SourceAddress

pub record ContextItem : Type 0 where
  pub id : Text
  pub kind : ContextItemKind
  pub title : Text
  pub body : Text
  pub estimated_tokens : ℕ
  pub provenance : ContextProvenance

pub record Uncertainty : Type 0 where
  pub capability : Text
  pub message : Text
  pub recommended_action : Option Text

pub data OmissionReason : Type 0 where
  budget duplicate_range file_cap duplicate_entity : OmissionReason

pub record OmittedHit : Type 0 where
  pub document_id : Text
  pub reason : OmissionReason

pub data WitnessVerification : Type 0 where
  not_verified no_source_evidence : WitnessVerification

pub record DeliveryReport : Type 0 where
  pub included_item_ids : List Text
  pub omitted_hits : List OmittedHit
  pub delivered_terms : List Text
  pub missing_terms : List Text
  pub witness_verification : WitnessVerification
