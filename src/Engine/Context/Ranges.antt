-- ===== src/Engine/Context/Ranges.antt =====
-- No source range ships twice, and no file ships more than four.
use cce.Prelude.{
  ℕ, ◌+◌, ◌≤◌, ◌≡◌, sym, subst, Bool, false, Option, none, some, List, [], ◌∷◌, map, Text, text_eq,
  nat_eq, ◌==◌, arith, if◌then◌else◌, inl, inr, Option-cases, count, count-append, eq_iff,
}
use cce.Prelude.Lists.{contains}
use cce.Prelude.Map.{lookup, lookup-insert}
use cce.Core.Address.{SourceAddress}
use cce.Core.Retrieval.{SearchHit}
use cce.Core.Context.{ContextItem}
use cce.Engine.Context.Render.{ContextRole}
use cce.Engine.Context.Admission.{
  RangeKey, range_eq, range_of, Quotas, used_of_file, is_range_seen, is_file_full, commit_range,
  commit, item_for,
}
use cce.Engine.Context.{
  Search, Packing, attempt, classify, oriented, orientation_item, packing, pack,
}
use cce.Engine.Context.Steps.{ship, Admissible, attempt-cases, passes_keep}

abbrev pub is_in : Text → Option SourceAddress → Bool
is_in path none = false
is_in path (some a) = a.path == path

abbrev pub is_range : RangeKey → Option SourceAddress → Bool
is_range key none = false
is_range key (some a) = range_of a == key

-- How many of the items cite this file, and this range.
abbrev pub items_in : Text → List ContextItem → ℕ
items_in path is = count (λ (i : ContextItem). is_in path i.provenance.source_address) is

abbrev pub items_of : RangeKey → List ContextItem → ℕ
items_of key is = count (λ (i : ContextItem). is_range key i.provenance.source_address) is

record Spread (p : Packing) : Type 0 where
  files : (path : Text) → items_in path p.items ≡ used_of_file path p.quotas
  capped : (path : Text) → items_in path p.items ≤ 4
  ranges :
      (key : RangeKey) → items_of key p.items ≡ (if contains p.quotas.seen_ranges key then 1 else 0)

used-commit :
    (hit : SearchHit) (path : Text) (q : Quotas)
    → used_of_file path (commit hit q)
      ≡ used_of_file path q + (if is_in path hit.address then 1 else 0)
unfolding commit commit_range
used-commit hit path q = elim (Option-cases hit.address) [
  | inl without ↦ rw without (omega arith)
  | inr (a, with_address) ↦ rw with_address (
      ground (
        arith,
        eq_iff a.path path,
        lookup-insert a.path path (used_of_file a.path q + 1) q.ranges_per_file,
      ))
]

cap-commit :
    (hit : SearchHit) (path : Text) (q : Quotas)
    → is_file_full hit.address q ≡ false
    → used_of_file path q ≤ 4
    → used_of_file path q + (if is_in path hit.address then 1 else 0) ≤ 4
unfolding is_file_full
cap-commit hit path q h k = elim (Option-cases hit.address) [
  | inl without ↦ rw without (omega (arith, k))
  | inr (a, with_address) ↦
      rw with_address (ground (arith, eq_iff a.path path, rw with_address at h))
]

seen-commit :
    (hit : SearchHit) (key : RangeKey) (q : Quotas)
    → is_range_seen hit.address q ≡ false
    → (if contains (commit hit q).seen_ranges key then 1 else 0)
      ≡ (if contains q.seen_ranges key then 1 else 0) + (if is_range key hit.address then 1 else 0)
unfolding commit commit_range is_range_seen contains
seen-commit hit key q h = elim (Option-cases hit.address) [
  | inl without ↦ rw without (ground arith)
  | inr (a, with_address) ↦
      rw with_address (ground (arith, eq_iff (range_of a) key, rw with_address at h))
]

Spread-ship :
    (sid : Text) (b : ℕ) (role : ContextRole) (hit : SearchHit) (p : Packing)
    → Admissible b hit p
    → Spread p
    → Spread (ship sid role hit p)
unfolding item_for
Spread-ship sid b role hit p a h = record {
  files = λ path. ground (
    arith,
    count-append (λ (i : ContextItem). is_in path i.provenance.source_address) p.items
        (item_for sid role hit ∷ []),
    h.files path,
    used-commit hit path p.quotas,
  );
  capped = λ path. ground (
    arith,
    count-append (λ (i : ContextItem). is_in path i.provenance.source_address) p.items
        (item_for sid role hit ∷ []),
    h.files path,
    h.capped path,
    cap-commit hit path p.quotas a.below_cap,
  );
  ranges = λ key. ground (
    arith,
    count-append (λ (i : ContextItem). is_range key i.provenance.source_address) p.items
        (item_for sid role hit ∷ []),
    h.ranges key,
    seen-commit hit key p.quotas a.new_range,
  );
}

Spread-attempt :
    (sid : Text) (b : ℕ) (role : ContextRole) (hit : SearchHit) (p : Packing)
    → Spread p
    → Spread (attempt sid b (role, hit) p)
Spread-attempt sid b role hit p h = elim (attempt-cases sid b role hit p) [
  | inl (reason, why, e) ↦
      subst Spread (sym e) (record { files = h.files; capped = h.capped; ranges = h.ranges })
  | inr (a, e) ↦ subst Spread (sym e) (Spread-ship sid b role hit p a h)
]

Spread-oriented : (b : ℕ) (s : Search) → Spread (oriented b s)
unfolding oriented orientation_item lookup contains
Spread-oriented b s = record {
  files = λ path. ground arith;
  capped = λ path. ground arith;
  ranges = λ key. ground arith;
}

-- Whatever was found: no source range is cited by two items of the pack, however many hits have it,
-- and no file is cited by more than four.
pub pack_spreads :
    (to_lowercase : Text → Text) (s : Search) (budget_tokens : ℕ) (key : RangeKey) (path : Text)
    → (items_of key (pack to_lowercase s budget_tokens).items ≤ 1)
      × (items_in path (pack to_lowercase s budget_tokens).items ≤ 4)
unfolding pack packing
pack_spreads to_lowercase s b key path =
    let h =
      passes_keep Spread s.snapshot_id b (Spread-attempt s.snapshot_id b) (map classify s.hits)
        (oriented b s) (Spread-oriented b s) in
    (ground (arith, h.ranges key), h.capped path)
