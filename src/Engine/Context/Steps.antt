-- ===== src/Engine/Context/Steps.antt =====
-- What holds before the two passes of the packer and is kept by each attempt holds after them.
use cce.Prelude.{
  ℕ, ◌+◌, ◌-◌, ◌≤◌, ◌<◌, ◌≡◌, ◌⊎◌, refl, true, false, ◌++◌, List, [], ◌∷◌, Text, text_eq, arith,
  Option-cases, Bool-cases, inl, inr, ltb,
}
use cce.Prelude.Lists.{contains}
use cce.Prelude.Map.{insert}
use cce.Core.Retrieval.{SearchHit}
use cce.Core.Context.{OmissionReason, duplicate_range, file_cap, duplicate_entity, budget}
use cce.Engine.Context.Render.{ContextRole, render_hit, estimate_tokens}
use cce.Engine.Context.Admission.{
  is_range_seen, is_file_full, is_entity_seen, commit, item_for, render_item,
}
use cce.Engine.Context.{Packing, Classified, attempt, find_role, preselect, fill, quota_roles}

-- What `pack` does when a hit is refused, and when it ships.
abbrev pub refuse : SearchHit → OmissionReason → Packing → Packing
refuse hit reason p = record p { last_rejection = insert hit.document_id reason p.last_rejection }

abbrev pub ship : Text → ContextRole → SearchHit → Packing → Packing
ship snapshot_id role hit p = record p {
  items = p.items ++ item_for snapshot_id role hit ∷ [];
  used_tokens = p.used_tokens + (item_for snapshot_id role hit).estimated_tokens;
  quotas = commit hit p.quotas;
  taken = hit.document_id ∷ p.taken;
}

-- The hit passed every check.
pub record Admissible (budget_tokens : ℕ) (hit : SearchHit) (p : Packing) : Type 0 where
  pub new_range : is_range_seen hit.address p.quotas ≡ false
  pub below_cap : is_file_full hit.address p.quotas ≡ false
  pub fits : estimate_tokens (render_hit hit) ≤ budget_tokens - p.used_tokens

-- Why a hit may not ship, in the order of the checks: its range was packed before, its file has four
-- ranges already, its entity, which has no source, was packed before, or its rendering is longer than
-- what is left of the budget.
pub data Refused (budget_tokens : ℕ) (hit : SearchHit) (p : Packing) : OmissionReason → Type 0 where
  range_packed :
      is_range_seen hit.address p.quotas ≡ true → Refused budget_tokens hit p duplicate_range
  file_full :
      is_range_seen hit.address p.quotas ≡ false
      → is_file_full hit.address p.quotas ≡ true
      → Refused budget_tokens hit p file_cap
  entity_packed :
      is_range_seen hit.address p.quotas ≡ false
      → is_file_full hit.address p.quotas ≡ false
      → is_entity_seen hit p.quotas ≡ true
      → Refused budget_tokens hit p duplicate_entity
  too_long :
      is_range_seen hit.address p.quotas ≡ false
      → is_file_full hit.address p.quotas ≡ false
      → is_entity_seen hit p.quotas ≡ false
      → budget_tokens - p.used_tokens < estimate_tokens (render_hit hit)
      → Refused budget_tokens hit p budget

pub attempt-cases :
    (snapshot_id : Text) (budget_tokens : ℕ) (role : ContextRole) (hit : SearchHit) (p : Packing)
    → ((reason : OmissionReason) × Refused budget_tokens hit p reason
        × (attempt snapshot_id budget_tokens (role, hit) p ≡ refuse hit reason p))
      ⊎ (Admissible budget_tokens hit p
          × (attempt snapshot_id budget_tokens (role, hit) p ≡ ship snapshot_id role hit p))
unfolding attempt render_item
attempt-cases sid b role hit p = elim (Bool-cases (is_range_seen hit.address p.quotas)) [
  | inl seen ↦ inl (duplicate_range, range_packed seen, rw seen refl)
  | inr new_range ↦ elim (Bool-cases (is_file_full hit.address p.quotas)) [
    | inl full ↦ inl (file_cap, file_full new_range full, rw (new_range, full) refl)
    | inr below_cap ↦ elim (Bool-cases (is_entity_seen hit p.quotas)) [
      | inl seen ↦ inl (
        duplicate_entity,
        entity_packed new_range below_cap seen,
        rw (new_range, below_cap, seen) refl,
      )
      | inr new_entity ↦
          elim (Bool-cases (ltb (b - p.used_tokens) (estimate_tokens (render_hit hit)))) [
            | inl big ↦ inl (
              budget,
              too_long new_range below_cap new_entity (ground (arith, big)),
              rw (new_range, below_cap, new_entity, big) refl,
            )
            | inr fits ↦ inr (
              record { new_range = new_range; below_cap = below_cap; fits = ground arith },
              rw (new_range, below_cap, new_entity, fits) refl,
            )
          ]
    ]
  ]
]

module _ {κ} (P : Packing → Type κ) (snapshot_id : Text) (budget_tokens : ℕ)
    (kept : (role : ContextRole) (hit : SearchHit) (p : Packing)
      → P p
      → P (attempt snapshot_id budget_tokens (role, hit) p)) where
  pub preselect_keeps :
      (cs : List Classified) (roles : List ContextRole) (p : Packing)
      → P p
      → P (preselect snapshot_id budget_tokens cs roles p)
  unfolding preselect
  preselect_keeps cs [] p h = h
  preselect_keeps cs (role ∷ roles) p h = elim (Option-cases (find_role role p.taken cs)) [
    | inl missing ↦ rw (missing) (preselect_keeps cs roles p h)
    | inr ((r, hit), found) ↦ rw (found) (
        preselect_keeps cs roles (attempt snapshot_id budget_tokens (role, hit) p)
          (kept role hit p h))
  ]

  pub fill_keeps :
      (cs : List Classified) (p : Packing) → P p → P (fill snapshot_id budget_tokens cs p)
  unfolding fill
  fill_keeps [] p h = h
  fill_keeps ((role, hit) ∷ cs) p h = elim (Bool-cases (contains p.taken hit.document_id)) [
    | inl old ↦ rw (old) (fill_keeps cs p h)
    | inr new ↦
        rw (new)
          (fill_keeps cs (attempt snapshot_id budget_tokens (role, hit) p) (kept role hit p h))
  ]

  pub passes_keep :
      (cs : List Classified) (p : Packing)
      → P p
      → P (fill snapshot_id budget_tokens cs (preselect snapshot_id budget_tokens cs quota_roles p))
  passes_keep cs p h = fill_keeps cs _ (preselect_keeps cs quota_roles p h)
