-- ===== src/Engine/Context/Budget.antt =====
-- The pack stays within its token budget.
use cce.Prelude.{
  ℕ, ◌+◌, ◌≤◌, ◌≡◌, sym, subst, List, [], ◌∷◌, ◌++◌, map, Text, arith, leb, inl, inr, Bool-cases,
}
use cce.Core.Retrieval.{SearchHit}
use cce.Core.Context.{ContextItem}
use cce.Engine.Context.Render.{ContextRole, estimate_tokens}
use cce.Engine.Context.Admission.{item_for}
use cce.Engine.Context.{
  Search, Packing, attempt, classify, oriented, orientation_item, orientation_text, packing, pack,
}
use cce.Engine.Context.Steps.{ship, Admissible, attempt-cases, passes_keep}

abbrev pub total_tokens : List ContextItem → ℕ
total_tokens [] = 0
total_tokens (i ∷ is) = i.estimated_tokens + total_tokens is

total-append :
    (is js : List ContextItem) → total_tokens (is ++ js) ≡ total_tokens is + total_tokens js
total-append [] js = omega arith
total-append (i ∷ is) js = omega (arith, total-append is js)

record Fits (budget_tokens : ℕ) (p : Packing) : Type 0 where
  within : p.used_tokens ≤ budget_tokens
  total : p.used_tokens ≡ total_tokens p.items

Fits-ship :
    (sid : Text) (b : ℕ) (role : ContextRole) (hit : SearchHit) (p : Packing)
    → Admissible b hit p
    → Fits b p
    → Fits b (ship sid role hit p)
unfolding item_for
Fits-ship sid b role hit p a h = record {
  within = omega (arith, a.fits, h.within);
  total = omega (arith, h.total, total-append p.items (item_for sid role hit ∷ []));
}

Fits-attempt :
    (sid : Text) (b : ℕ) (role : ContextRole) (hit : SearchHit) (p : Packing)
    → Fits b p
    → Fits b (attempt sid b (role, hit) p)
Fits-attempt sid b role hit p h = elim (attempt-cases sid b role hit p) [
  | inl (reason, why, e) ↦ subst (Fits b) (sym e) (record { within = h.within; total = h.total })
  | inr (a, e) ↦ subst (Fits b) (sym e) (Fits-ship sid b role hit p a h)
]

Fits-oriented : (b : ℕ) (s : Search) → Fits b (oriented b s)
unfolding oriented orientation_item
Fits-oriented b s = elim (Bool-cases (leb (estimate_tokens (orientation_text s)) b)) [
  | inl fits ↦ record { within = ground (arith, fits); total = ground (arith, fits) }
  | inr big ↦ record { within = ground (arith, big); total = ground (arith, big) }
]

-- Whatever was found and whatever the budget: the tokens that the pack reports as used are those of
-- its items, the orientation included, and are no more than the budget.
pub pack_within_budget :
    (to_lowercase : Text → Text) (s : Search) (budget_tokens : ℕ)
    → let p = pack to_lowercase s budget_tokens in
      (p.used_tokens ≤ budget_tokens) × (p.used_tokens ≡ total_tokens p.items)
unfolding pack packing
pack_within_budget to_lowercase s b =
    let h =
      passes_keep (Fits b) s.snapshot_id b (Fits-attempt s.snapshot_id b) (map classify s.hits)
        (oriented b s) (Fits-oriented b s) in
    (h.within, h.total)
