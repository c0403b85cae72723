-- ===== src/Engine/Context/Admission.antt =====
-- `render_item` of crates/cce-engine/src/context.rs: whether a hit may ship, and what it then uses
-- of the quotas.
use cce.Prelude.{
  ℕ, ◌+◌, ◌-◌, Bool, false, Option, none, some, List, ◌∷◌, Text, txt, text_eq, nat_eq, pair_eq, Eq,
  ltb, leb, if◌then◌else◌,
}
use cce.Prelude.Lists.{contains}
use cce.Prelude.Map.{lookup, insert}
use cce.Prelude.Split.{join}
use cce.Core.Address.{SourceAddress}
use cce.Core.Retrieval.{SearchHit, is_exact_symbol}
use cce.Core.Context.{
  ContextItemKind, entry_point, source, contract, relation_path, test, config, history, knowledge,
  ContextItem, OmissionReason, budget, duplicate_range, file_cap, duplicate_entity,
}
use cce.Engine.Context.Render.{ContextRole, render_hit, title_of, estimate_tokens}
use cce.Engine.Context.Render

-- `(path, start_byte, end_byte)`.
abbrev pub RangeKey : Type 0
RangeKey = Text × (ℕ × ℕ)

instance abbrev pub range_eq : Eq RangeKey
range_eq = pair_eq ⦃e = text_eq⦄ ⦃f = pair_eq ⦃e = nat_eq⦄ ⦃f = nat_eq⦄⦄

pub record Quotas : Type 0 where
  pub seen_entities : List Text
  pub seen_ranges : List RangeKey
  pub ranges_per_file : List (Text × ℕ)

pub data Rendered : Type 0 where
  admitted : ContextItem → Quotas → Rendered
  rejected : OmissionReason → Rendered

abbrev pub range_of : SourceAddress → RangeKey
range_of address = (address.path, (address.start_byte, address.end_byte))

-- `get(path).copied().unwrap_or(0)`.
abbrev pub or_zero : Option ℕ → ℕ
or_zero none = 0
or_zero (some n) = n

abbrev pub used_of_file : Text → Quotas → ℕ
used_of_file path q = or_zero (lookup path q.ranges_per_file)

unfoldable pub is_range_seen : Option SourceAddress → Quotas → Bool
is_range_seen none q = false
is_range_seen (some address) q = contains q.seen_ranges (range_of address)

unfoldable pub is_file_full : Option SourceAddress → Quotas → Bool
is_file_full none q = false
is_file_full (some address) q = leb 4 (used_of_file address.path q)

unfoldable pub is_entity_seen : SearchHit → Quotas → Bool
is_entity_seen hit q = elim hit.address [
  | none ↦ contains q.seen_entities hit.entity_id
  | some _ ↦ false
]

unfoldable pub commit_range : Option SourceAddress → Quotas → Quotas
commit_range none q = q
commit_range (some address) q = record q {
  seen_ranges = range_of address ∷ q.seen_ranges;
  ranges_per_file = insert address.path (used_of_file address.path q + 1) q.ranges_per_file;
}

unfoldable pub commit : SearchHit → Quotas → Quotas
unfolding commit_range
commit hit q =
    let q' = commit_range hit.address q in
    record q' { seen_entities = hit.entity_id ∷ q'.seen_entities }

abbrev pub kind_of : ContextRole → SearchHit → ContextItemKind
kind_of Render.test hit = test
kind_of Render.history hit = history
kind_of Render.knowledge hit = knowledge
kind_of Render.caller hit = relation_path
kind_of Render.contract hit = contract
kind_of Render.config hit = config
kind_of Render.target hit = if is_exact_symbol hit.route then entry_point else source

unfoldable pub item_for : Text → ContextRole → SearchHit → ContextItem
item_for snapshot_id role hit = record {
  id = hit.document_id;
  kind = kind_of role hit;
  title = title_of hit;
  body = render_hit hit;
  estimated_tokens = estimate_tokens (render_hit hit);
  provenance = record {
    why_retrieved = join (txt "; ") hit.explanation;
    route = hit.route;
    rank = hit.rank;
    score = hit.score;
    snapshot_id = snapshot_id;
    verified_current = hit.verified_current;
    symbol_name = hit.symbol_name;
    source_address = hit.address;
    evidence_addresses = hit.evidence;
  };
}

unfoldable pub render_item : Text → ℕ → ℕ → ContextRole → SearchHit → Quotas → Rendered
unfolding item_for commit
render_item snapshot_id budget_tokens used_tokens role hit q =
    if is_range_seen hit.address q
    then rejected duplicate_range
    else (if is_file_full hit.address q
        then rejected file_cap
        else (if is_entity_seen hit q
            then rejected duplicate_entity
            else (if ltb (budget_tokens - used_tokens) (estimate_tokens (render_hit hit))
                then rejected budget
                else admitted (item_for snapshot_id role hit) (commit hit q))))
