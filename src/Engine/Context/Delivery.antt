-- ===== src/Engine/Context/Delivery.antt =====
-- Every hit is accounted for: it shipped, or it is reported as omitted, with a reason.
use mathlib.Core.List.{append_assoc}
use cce.Prelude.{
  ℕ, ◌≡◌, refl, sym, ◌∙◌, subst, ap, true, false, not, ◌||◌, ◌&&◌, some, List, [], ◌∷◌, ◌++◌, map,
  Text, text_eq, ◌==◌, arith, if◌then◌else◌, inl, inr, Bool-cases, All, eq_iff, eq_refl,
  keep-append,
}
use cce.Prelude.Lists.{contains, any, keep}
use cce.Prelude.Map.{lookup, lookup-insert}
use cce.Core.Retrieval.{SearchHit, is_exact_symbol}
use cce.Core.Context.{ContextItem, OmissionReason, OmittedHit}
use cce.Engine.Context.Render.{ContextRole}
use cce.Engine.Context.Render
use cce.Engine.Context.Admission.{item_for}
use cce.Engine.Context.Report.{is_orientation, included, omitted}
use cce.Engine.Context.{
  Search, Packing, attempt, classify, oriented, orientation_item, fill, preselect, quota_roles,
  packing,
}
use cce.Engine.Context.Steps.{Refused, attempt-cases, passes_keep, fill_keeps}

contains-append :
    (xs ys : List Text) (a : Text) → contains (xs ++ ys) a ≡ (contains xs a || contains ys a)
unfolding contains
contains-append [] ys a = refl
contains-append (x ∷ xs) ys a = ground (arith, contains-append xs ys a)

map-append :
    (f : ContextItem → Text) (is js : List ContextItem) → map f (is ++ js) ≡ map f is ++ map f js
map-append f [] js = refl
map-append f (i ∷ is) js = ap (λ (r : List Text). f i ∷ r) (map-append f is js)

included-append : (is js : List ContextItem) → included (is ++ js) ≡ included is ++ included js
unfolding included
included-append is js =
    rw (keep-append (λ (i : ContextItem). not (is_orientation i.kind)) is js)
      (map-append (λ (i : ContextItem). i.id) _ _)

-- The ids taken are those of the items.
Tracked : Packing → Type 0
Tracked p = (id : Text) → contains (included p.items) id ≡ contains p.taken id

included-item :
    (sid : Text) (role : ContextRole) (hit : SearchHit)
    → included (item_for sid role hit ∷ []) ≡ hit.document_id ∷ []
unfolding included keep item_for
included-item sid Render.test hit = refl
included-item sid Render.history hit = refl
included-item sid Render.knowledge hit = refl
included-item sid Render.caller hit = refl
included-item sid Render.contract hit = refl
included-item sid Render.config hit = refl
included-item sid Render.target hit = elim (Bool-cases (is_exact_symbol hit.route)) [
  | inl exact ↦ rw exact refl
  | inr other ↦ rw other refl
]

Tracked-attempt :
    (sid : Text) (b : ℕ) (role : ContextRole) (hit : SearchHit) (p : Packing)
    → Tracked p
    → Tracked (attempt sid b (role, hit) p)
unfolding Tracked contains
Tracked-attempt sid b role hit p h = elim (attempt-cases sid b role hit p) [
  | inl (reason, why, e) ↦ subst Tracked (sym e) h
  | inr (a, e) ↦ subst Tracked (sym e) (λ id.
      rw
        (
          included-append p.items (item_for sid role hit ∷ []),
          included-item sid role hit,
          contains-append (included p.items) (hit.document_id ∷ []) id,
          h id,
        )
        (ground arith))
]

Tracked-oriented : (b : ℕ) (s : Search) → Tracked (oriented b s)
unfolding Tracked oriented orientation_item included keep contains
Tracked-oriented b s id = ground arith

-- What the packer does with one hit of the second pass.
abbrev step : Text → ℕ → SearchHit → Packing → Packing
step sid b hit p = if contains p.taken hit.document_id then p else attempt sid b (classify hit) p

-- A refused hit that is the last one of its id in the second pass: the packing that it met is the
-- one after the hits before it, `start` being the packing before the pass.
pub record LastRefused (sid : Text) (budget_tokens : ℕ) (hits : List SearchHit) (start : Packing)
    (id : Text) (reason : OmissionReason) : Type 0 where
  pub front : List SearchHit
  pub hit : SearchHit
  pub back : List SearchHit
  pub whole : hits ≡ front ++ (hit ∷ back)
  pub same : (hit.document_id == id) ≡ true
  pub last : any (λ (other : SearchHit). other.document_id == id) back ≡ false
  pub refused : Refused budget_tokens hit (fill sid budget_tokens (map classify front) start) reason

taken_stays :
    (sid : Text) (b : ℕ) (id : Text) (role : ContextRole) (hit : SearchHit) (p : Packing)
    → contains p.taken id ≡ true
    → contains (attempt sid b (role, hit) p).taken id ≡ true
unfolding contains
taken_stays sid b id role hit p h = elim (attempt-cases sid b role hit p) [
  | inl (reason, why, e) ↦ rw e h
  | inr (a, e) ↦ rw e (ground (arith, h))
]

fill-taken :
    (sid : Text) (b : ℕ) (id : Text) (hits : List SearchHit) (p : Packing)
    → contains (fill sid b (map classify hits) p).taken id ≡ false
    → contains p.taken id ≡ false
fill-taken sid b id hits p h = elim (Bool-cases (contains p.taken id)) [
  | inl old ↦ cc (
    fill_keeps (λ q. contains q.taken id ≡ true) sid b (taken_stays sid b id) (map classify hits) p
        old,
    h,
  )
  | inr new ↦ new
]

step-other :
    (sid : Text) (b : ℕ) (id : Text) (hit : SearchHit) (p : Packing)
    → (hit.document_id == id) ≡ false
    → lookup id (step sid b hit p).last_rejection ≡ lookup id p.last_rejection
step-other sid b id hit p ne = elim (Bool-cases (contains p.taken hit.document_id)) [
  | inl old ↦ rw old refl
  | inr new ↦ rw new (elim (attempt-cases sid b (classify hit).0 hit p) [
    | inl (reason, why, e) ↦
        rw e (lookup-insert hit.document_id id reason p.last_rejection ∙ rw ne refl)
    | inr (a, e) ↦ rw e refl
  ])
]

fill-others :
    (sid : Text) (b : ℕ) (id : Text) (hits : List SearchHit) (p : Packing)
    → any (λ (other : SearchHit). other.document_id == id) hits ≡ false
    → lookup id (fill sid b (map classify hits) p).last_rejection ≡ lookup id p.last_rejection
unfolding fill any
fill-others sid b id [] p h = refl
fill-others sid b id (hit ∷ hits) p h =
    fill-others sid b id hits (step sid b hit p) (ground (arith, h))
    ∙ step-other sid b id hit p (ground (arith, h))

-- An attempt on a hit whose id is not taken afterwards was refused, and the reason is noted.
step-Refused :
    (sid : Text) (b : ℕ) (id : Text) (hit : SearchHit) (p : Packing)
    → (hit.document_id == id) ≡ true
    → contains (step sid b hit p).taken id ≡ false
    → (reason : OmissionReason) × Refused b hit p reason
      × (lookup id (step sid b hit p).last_rejection ≡ some reason)
unfolding contains
step-Refused sid b id hit p same h = elim (Bool-cases (contains p.taken hit.document_id)) [
  | inl old ↦ absurd (ground (arith, old, h, eq_iff hit.document_id id))
  | inr new ↦ elim (attempt-cases sid b (classify hit).0 hit p) [
    | inl (reason, why, e) ↦ (
      reason,
      why,
      rw (new, e) (lookup-insert hit.document_id id reason p.last_rejection ∙ rw same refl),
    )
    | inr (a, e) ↦ absurd (cc (rw (new, e, same) at h))
  ]
]

Reported : Text → ℕ → List SearchHit → Packing → Text → Type 0
Reported sid b hits p id =
    (reason : OmissionReason) × LastRefused sid b hits p id reason
    × (lookup id (fill sid b (map classify hits) p).last_rejection ≡ some reason)

fill-Reported :
    (sid : Text) (b : ℕ) (id : Text) (hits : List SearchHit) (p : Packing)
    → any (λ (hit : SearchHit). hit.document_id == id) hits ≡ true
    → contains (fill sid b (map classify hits) p).taken id ≡ false
    → Reported sid b hits p id
unfolding fill any Reported
fill-Reported sid b id [] p h left = cc
fill-Reported sid b id (hit ∷ hits) p h left =
    elim (Bool-cases (any (λ (other : SearchHit). other.document_id == id) hits)) [
      | inl later ↦
          let (reason, r, noted) = fill-Reported sid b id hits (step sid b hit p) later left in
          (
            reason,
            record {
              front = hit ∷ r.front;
              hit = r.hit;
              back = r.back;
              whole = ap (λ (xs : List SearchHit). hit ∷ xs) r.whole;
              same = r.same;
              last = r.last;
              refused = r.refused;
            },
            noted,
          )
      | inr none_later ↦
          let here : (hit.document_id == id) ≡ true = ground (arith, h, none_later) in
          let (reason, why, noted) =
            step-Refused sid b id hit p here (fill-taken sid b id hits (step sid b hit p) left) in
          (
            reason,
            record {
              front = [];
              hit = hit;
              back = hits;
              whole = refl;
              same = here;
              last = none_later;
              refused = why;
            },
            fill-others sid b id hits (step sid b hit p) none_later ∙ noted,
          )
    ]

any-omitted :
    (id : Text) (taken : List Text) (reasons : List (Text × OmissionReason)) (hits : List SearchHit)
    → any (λ (o : OmittedHit). o.document_id == id) (omitted taken reasons hits)
      ≡ (any (λ (hit : SearchHit). hit.document_id == id) hits && not (contains taken id))
unfolding omitted any keep
any-omitted id taken reasons [] = refl
any-omitted id taken reasons (hit ∷ hits) = elim (Bool-cases (contains taken hit.document_id)) [
  | inl shipped ↦
      ground (arith, shipped, any-omitted id taken reasons hits, eq_iff hit.document_id id)
  | inr left ↦ ground (arith, left, any-omitted id taken reasons hits, eq_iff hit.document_id id)
]

-- The reasons that are reported: each hit of the list was left out and is one of the hits packed.
omitted_reasons :
    (sid : Text) (b : ℕ) (all : List SearchHit) (start : Packing) (hits : List SearchHit)
    → All
        (λ (hit : SearchHit). any (λ (h : SearchHit). h.document_id == hit.document_id) all ≡ true)
        hits
    → let p = fill sid b (map classify all) start in
      All
        (λ (o : OmittedHit). LastRefused sid b all start o.document_id o.reason)
        (omitted p.taken p.last_rejection hits)
unfolding omitted keep Reported
omitted_reasons sid b all start [] h = tt
omitted_reasons sid b all start (hit ∷ hits) (h, hs) =
    let p = fill sid b (map classify all) start in
    elim (Bool-cases (contains p.taken hit.document_id)) [
      | inl shipped ↦ rw shipped (omitted_reasons sid b all start hits hs)
      | inr left ↦
          let (reason, r, noted) = fill-Reported sid b hit.document_id all start h left in
          rw (left, noted) (r, omitted_reasons sid b all start hits hs)
    ]

all_found :
    (front hits : List SearchHit)
    → All
        (λ (hit : SearchHit).
          any (λ (h : SearchHit). h.document_id == hit.document_id) (front ++ hits) ≡ true)
        hits
unfolding any
all_found front [] = tt
all_found front (hit ∷ hits) =
    (found front, rw (append_assoc front (hit ∷ []) hits) at (all_found (front ++ hit ∷ []) hits))
  where
    found :
        (front : List SearchHit)
        → any (λ (h : SearchHit). h.document_id == hit.document_id) (front ++ (hit ∷ hits)) ≡ true
    found [] = ground (arith, eq_refl hit.document_id)
    found (x ∷ front) = ground (arith, found front)

-- Whatever was found: a hit's id is reported as omitted exactly when no item of the pack carries
-- it, so that every hit shipped or is reported. The reason that is reported for an id is that of the
-- last hit of this id: it was refused in the second pass, and the reason is the first of the checks
-- (its range, its file, its entity, the budget) that refuses it, given what was packed before it.
pub delivery_is_complete :
    (s : Search) (budget_tokens : ℕ) (id : Text)
    → let p = packing s budget_tokens in
      let gaps = omitted p.taken p.last_rejection s.hits in
      let start =
        preselect s.snapshot_id budget_tokens
          (map classify s.hits)
          quota_roles
          (oriented budget_tokens s) in
      (any (λ (o : OmittedHit). o.document_id == id) gaps ≡ (
        any (λ (hit : SearchHit). hit.document_id == id) s.hits
        && not (contains (included p.items) id)))
      × All
          (λ (o : OmittedHit).
            LastRefused s.snapshot_id budget_tokens s.hits start o.document_id o.reason)
          gaps
unfolding packing Tracked
delivery_is_complete s b id =
    let p = packing s b in
    let cs = map classify s.hits in
    let h =
      passes_keep Tracked s.snapshot_id b (Tracked-attempt s.snapshot_id b) cs (oriented b s)
        (Tracked-oriented b s) in
    let q = preselect s.snapshot_id b cs quota_roles (oriented b s) in
    (
      rw (h id) (any-omitted id p.taken p.last_rejection s.hits),
      omitted_reasons s.snapshot_id b s.hits q s.hits (all_found [] s.hits),
    )
