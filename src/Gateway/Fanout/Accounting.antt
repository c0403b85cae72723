-- ===== src/Gateway/Fanout/Accounting.antt =====
-- What the merged response says of the repositories that were asked.
use mathlib.Core.List.{Permᴰ, Pairwise}
use mathlib.Core.List.Permᴰ
use cce.Prelude.{
  ℕ, ◌+◌, ◌≤◌, ◌≡◌, refl, subst, subst₂, sym, Bool, Option, none, some, List, [], ◌∷◌, ◌++◌, map,
  Text, pair_eq, text_eq, arith, length, length-take-le, max, take, count, count-map, count-append,
  count-Permᴰ, length-map,
}
use cce.Prelude.Sort.{sort_by, count-sort_by, Apart, sort_by-Permᴰ}
use cce.Gateway.Json.{Json}
use cce.Gateway.Registry.{RepoEntry}
use cce.Gateway.Fanout.Merge.{longest}
use cce.Gateway.Fanout.Merge.ByRank.{by_rank, merge_hits-by_rank}
use cce.Gateway.Fanout.{
  DegradedRepo, RepoOutcome, Selection, add_selector, find_entry, resolve, select, Reply, ok, err,
  RepoReply, Joined, Collected, add_joined, collect, respond,
}

-- A repository as it stands in a response: its id and its slug.
abbrev pub Named : Type 0
Named = Text × Text

abbrev pub named : RepoEntry → Named
named entry = (entry.id, entry.slug)

abbrev asked_as : Text → Option RepoEntry → Named
asked_as selector none = (selector, selector)
asked_as selector (some entry) = named entry

abbrev asked_each : List RepoEntry → List Text → List Named
asked_each entries [] = []
asked_each entries (selector ∷ selectors) =
    asked_as selector (find_entry selector entries) ∷ asked_each entries selectors

-- The repositories that a request asks for: all of them, or the one that each selector names. A
-- selector that names none stands for itself.
abbrev pub requested : List RepoEntry → List Text → List Named
requested entries [] = map named entries
requested entries (selector ∷ selectors) = asked_each entries (selector ∷ selectors)

-- How many repositories of a name were searched, and how many are degraded.
abbrev pub searched_as : (Named → Bool) → List RepoOutcome → ℕ
searched_as p outcomes = count (λ (o : RepoOutcome). p (o.repo_id, o.repo_slug)) outcomes

abbrev pub degraded_as : (Named → Bool) → List DegradedRepo → ℕ
degraded_as p repos = count (λ (d : DegradedRepo). p (d.repo_id, d.repo_slug)) repos

count-add_selector :
    (p : Named → Bool) (selector : Text) (o : Option RepoEntry) (s : Selection)
    → count (λ e. p (named e)) (add_selector selector o s).selected
        + degraded_as p (add_selector selector o s).unknown
      ≡ count p (asked_as selector o ∷ [])
        + (count (λ e. p (named e)) s.selected + degraded_as p s.unknown)
count-add_selector p selector none s = ground arith
count-add_selector p selector (some entry) s = ground arith

count-resolve :
    (p : Named → Bool) (entries : List RepoEntry) (selectors : List Text)
    → count (λ e. p (named e)) (resolve entries selectors).selected
        + degraded_as p (resolve entries selectors).unknown
      ≡ count p (asked_each entries selectors)
unfolding resolve
count-resolve p entries [] = omega arith
count-resolve p entries (selector ∷ selectors) = ground (
  arith,
  count-add_selector p selector (find_entry selector entries) (resolve entries selectors),
  count-resolve p entries selectors,
)

count-select :
    (p : Named → Bool) (entries : List RepoEntry) (selectors : List Text)
    → count (λ e. p (named e)) (select entries selectors).selected
        + degraded_as p (select entries selectors).unknown
      ≡ count p (requested entries selectors)
unfolding select
count-select p entries [] = omega (
  arith,
  count-sort_by (λ (e : RepoEntry). e.slug) (λ e. p (named e)) entries,
  count-map p named entries,
)
count-select p entries (selector ∷ selectors) =
    let s = resolve entries (selector ∷ selectors) in
    omega (
      arith,
      count-sort_by (λ (e : RepoEntry). e.slug) (λ e. p (named e)) s.selected,
      count-resolve p entries (selector ∷ selectors),
    )

module _ (json : Json) where
  open json use {Value}

  count-add_joined :
      (p : Named → Bool) (j : Joined json) (r : Reply json) (c : Collected json)
      → count (λ (o : RepoReply json). p (named o.entry)) (add_joined json j r c).replies
          + degraded_as p (add_joined json j r c).degraded
        ≡ count p (named j.entry ∷ [])
          + (count (λ (o : RepoReply json). p (named o.entry)) c.replies + degraded_as p c.degraded)
  count-add_joined p j (ok answer) c = ground arith
  count-add_joined p j (err error) c = ground arith

  count-collect :
      (p : Named → Bool) (js : List (Joined json))
      → count (λ (o : RepoReply json). p (named o.entry)) (collect json js).replies
          + degraded_as p (collect json js).degraded
        ≡ count (λ e. p (named e)) (map (λ j. j.entry) js)
  unfolding collect
  count-collect p [] = omega arith
  count-collect p (j ∷ js) =
      ground (arith, count-add_joined p j j.reply (collect json js), count-collect p js)

  -- If the tasks that end are those of the selected repositories, in any order, each repository that
  -- was asked for, registered or not, is accounted for by its id and slug, as often as it was asked
  -- for: it was searched, or it stands in `degraded`; and `searched` is the number of the former.
  pub fanout_accounts :
      (query : Text) (limit : ℕ) (entries : List RepoEntry) (selectors : List Text)
      (joined : List (Joined json)) (p : Named → Bool)
      → Permᴰ (map (λ j. j.entry) joined) (select entries selectors).selected
      → let r = respond json query limit (select entries selectors).unknown joined in
        (searched_as p r.per_repo + degraded_as p r.degraded
          ≡ count p (requested entries selectors))
        × (r.searched ≡ length r.per_repo)
  unfolding respond
  fanout_accounts query limit entries selectors joined p h =
      let c = collect json joined in
      let unknown = (select entries selectors).unknown in
      let replies = sort_by (λ (r : RepoReply json). r.entry.slug) c.replies in
      (
        omega (
          arith,
          count-map (λ (o : RepoOutcome). p (o.repo_id, o.repo_slug)) _ replies,
          count-sort_by (λ (r : RepoReply json). r.entry.slug)
              (λ (o : RepoReply json). p (named o.entry)) c.replies,
          count-sort_by (λ (d : DegradedRepo). d.repo_slug)
              (λ (d : DegradedRepo). p (d.repo_id, d.repo_slug)) (unknown ++ c.degraded),
          count-append (λ (d : DegradedRepo). p (d.repo_id, d.repo_slug)) unknown c.degraded,
          count-collect p joined,
          count-Permᴰ (λ e. p (named e)) h,
          count-select p entries selectors,
        ),
        sym (length-map _ replies),
      )

  -- The merged hits are always produced, and are at most `limit` many (one, where it is 0).
  pub fanout_hits_bounded :
      (query : Text) (limit : ℕ) (unknown : List DegradedRepo) (joined : List (Joined json))
      → (hits : List Value) × ((respond json query limit unknown joined).hits ≡ some hits)
        × (length hits ≤ max limit 1)
  unfolding respond
  fanout_hits_bounded query limit unknown joined =
      let replies = sort_by (λ (r : RepoReply json). r.entry.slug) (collect json joined).replies in
      let lanes = map (λ (r : RepoReply json). (r.entry.slug, r.answer.hits)) replies in
      let merged = by_rank json 0 (longest json lanes + 1) lanes in
      (
        take (max (max limit 1) 1) merged,
        merge_hits-by_rank json lanes (max limit 1),
        omega (arith, length-take-le (max (max limit 1) 1) merged),
      )

  replies-cons :
      (j : Joined json) (r : Reply json) (c d : Collected json)
      → Permᴰ c.replies d.replies
      → Permᴰ (add_joined json j r c).replies (add_joined json j r d).replies
  replies-cons j (ok answer) c d p = Permᴰ.cons refl p
  replies-cons j (err error) c d p = p

  replies-swap :
      (i j : Joined json) (q r : Reply json) (c : Collected json)
      → Permᴰ
          (add_joined json i q (add_joined json j r c)).replies
          (add_joined json j r (add_joined json i q c)).replies
  replies-swap i j (ok a) (ok b) c = Permᴰ.swap refl refl
  replies-swap i j (ok a) (err e) c = Permᴰ.refl _
  replies-swap i j (err e) (ok b) c = Permᴰ.refl _
  replies-swap i j (err e) (err f) c = Permᴰ.refl _

  replies-Permᴰ :
      {js js' : List (Joined json)}
      → Permᴰ js js'
      → Permᴰ (collect json js).replies (collect json js').replies
  unfolding collect
  replies-Permᴰ Permᴰ.nil = Permᴰ.nil
  replies-Permᴰ (Permᴰ.cons {a = a} {l₁ = l₁} {l₂ = l₂} e p) =
      subst (λ b. Permᴰ (collect json (a ∷ l₁)).replies (collect json (b ∷ l₂)).replies) e
        (replies-cons a a.reply (collect json l₁) (collect json l₂) (replies-Permᴰ p))
  replies-Permᴰ (Permᴰ.swap {a = a} {b = b} {l = l} e e') =
      subst₂ (λ x y. Permᴰ (collect json (a ∷ b ∷ l)).replies (collect json (x ∷ y ∷ l)).replies) e'
        e (replies-swap a b a.reply b.reply (collect json l))
  replies-Permᴰ (Permᴰ.trans p q) = Permᴰ.trans (replies-Permᴰ p) (replies-Permᴰ q)

  degraded-cons :
      (j : Joined json) (r : Reply json) (c d : Collected json)
      → Permᴰ c.degraded d.degraded
      → Permᴰ (add_joined json j r c).degraded (add_joined json j r d).degraded
  degraded-cons j (ok answer) c d p = p
  degraded-cons j (err error) c d p = Permᴰ.cons refl p

  degraded-swap :
      (i j : Joined json) (q r : Reply json) (c : Collected json)
      → Permᴰ
          (add_joined json i q (add_joined json j r c)).degraded
          (add_joined json j r (add_joined json i q c)).degraded
  degraded-swap i j (ok a) (ok b) c = Permᴰ.refl _
  degraded-swap i j (ok a) (err e) c = Permᴰ.refl _
  degraded-swap i j (err e) (ok b) c = Permᴰ.refl _
  degraded-swap i j (err e) (err f) c = Permᴰ.swap refl refl

  degraded-Permᴰ :
      {js js' : List (Joined json)}
      → Permᴰ js js'
      → Permᴰ (collect json js).degraded (collect json js').degraded
  unfolding collect
  degraded-Permᴰ Permᴰ.nil = Permᴰ.nil
  degraded-Permᴰ (Permᴰ.cons {a = a} {l₁ = l₁} {l₂ = l₂} e p) =
      subst (λ b. Permᴰ (collect json (a ∷ l₁)).degraded (collect json (b ∷ l₂)).degraded) e
        (degraded-cons a a.reply (collect json l₁) (collect json l₂) (degraded-Permᴰ p))
  degraded-Permᴰ (Permᴰ.swap {a = a} {b = b} {l = l} e e') =
      subst₂ (λ x y. Permᴰ (collect json (a ∷ b ∷ l)).degraded (collect json (x ∷ y ∷ l)).degraded)
        e' e (degraded-swap a b a.reply b.reply (collect json l))
  degraded-Permᴰ (Permᴰ.trans p q) = Permᴰ.trans (degraded-Permᴰ p) (degraded-Permᴰ q)

  Permᴰ-append :
      (us : List DegradedRepo) {xs ys : List DegradedRepo}
      → Permᴰ xs ys
      → Permᴰ (us ++ xs) (us ++ ys)
  Permᴰ-append [] p = p
  Permᴰ-append (u ∷ us) p = Permᴰ.cons refl (Permᴰ-append us p)

  -- The order in which the tasks end does not show in the response: if the repositories that
  -- answered have pairwise different slugs, and so have the degraded ones with the selectors that
  -- name nothing, any other order of the same tasks gives the same response.
  pub order_of_replies_does_not_show :
      (query : Text) (limit : ℕ) (unknown : List DegradedRepo) (joined joined' : List (Joined json))
      → Permᴰ joined joined'
      → Pairwise (Apart (λ (r : RepoReply json). r.entry.slug)) (collect json joined).replies
      → Pairwise
          (Apart (λ (d : DegradedRepo). d.repo_slug))
          (unknown ++ (collect json joined).degraded)
      → let r = respond json query limit unknown joined in
        let r' = respond json query limit unknown joined' in r ≡ r'
  unfolding respond
  order_of_replies_does_not_show query limit unknown joined joined' p distinct apart =
      let same = sort_by-Permᴰ (λ (r : RepoReply json). r.entry.slug) (replies-Permᴰ p) distinct in
      let degraded =
        sort_by-Permᴰ (λ (d : DegradedRepo). d.repo_slug) (Permᴰ-append unknown (degraded-Permᴰ p))
          apart in
      rw (same, degraded) refl
