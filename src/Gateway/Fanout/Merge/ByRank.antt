-- ===== src/Gateway/Fanout/Merge/ByRank.antt =====
-- The merged list is the hits by rank, cut at the limit.
use mathlib.Core.List.{append_assoc, append-nil}
use cce.Prelude.{
  ℕ, zero, suc, ◌+◌, ◌-◌, ◌<◌, ◌≡◌, refl, ap, ◌∙◌, inl, inr, Bool, true, false, ◌||◌, Option, none,
  some, List, [], ◌∷◌, ◌++◌, Text, arith, if◌then◌else◌, leb, length, take, get_elem?, max,
  Bool-cases, length-append, take_of_length-le, take-append_of_le, leb→le,
}
use cce.Gateway.Fanout.Merge.{
  Lane, with_repo, Round, full, open_round, round, rounds, longest, merge_hits,
}
use cce.Gateway.Json.{Json}

module _ (json : Json) where
  open json use {Value}

  abbrev push_tagged : Text → Option Value → List Value → List Value
  push_tagged slug none rest = rest
  push_tagged slug (some hit) rest = with_repo json slug hit ∷ rest

  -- The hits at one position of every lane, in the order of the lanes.
  unfoldable pub ranked : ℕ → List (Lane json) → List Value
  ranked r [] = []
  ranked r ((slug, hits) ∷ lanes) = push_tagged slug (get_elem? hits r) (ranked r lanes)

  -- The hits of `count` positions, from position `start` on.
  unfoldable pub by_rank : ℕ → ℕ → List (Lane json) → List Value
  by_rank start zero lanes = []
  by_rank start (suc count) lanes = ranked start lanes ++ by_rank (suc start) count lanes

  tails : List (Lane json) → List (Lane json)
  tails [] = []
  tails ((slug, []) ∷ lanes) = (slug, []) ∷ tails lanes
  tails ((slug, hit ∷ hits) ∷ lanes) = (slug, hits) ∷ tails lanes

  ranked-tails : (r : ℕ) (lanes : List (Lane json)) → ranked (suc r) lanes ≡ ranked r (tails lanes)
  unfolding ranked tails
  ranked-tails r [] = refl
  ranked-tails r ((slug, []) ∷ lanes) = ranked-tails r lanes
  ranked-tails r ((slug, hit ∷ hits) ∷ lanes) =
      ap (push_tagged slug (get_elem? hits r)) (ranked-tails r lanes)

  by_rank-tails :
      (start count : ℕ) (lanes : List (Lane json))
      → by_rank (suc start) count lanes ≡ by_rank start count (tails lanes)
  unfolding by_rank
  by_rank-tails start zero lanes = refl
  by_rank-tails start (suc count) lanes =
      rw (ranked-tails start lanes, by_rank-tails (suc start) count lanes) refl

  longest-tails : (lanes : List (Lane json)) → longest json (tails lanes) ≡ longest json lanes - 1
  unfolding longest tails
  longest-tails [] = omega arith
  longest-tails ((slug, []) ∷ lanes) = omega (arith, longest-tails lanes)
  longest-tails ((slug, hit ∷ hits) ∷ lanes) = omega (arith, longest-tails lanes)

  ranked-exhausted :
      (r : ℕ) (lanes : List (Lane json)) → longest json lanes ≡ 0 → ranked r lanes ≡ []
  unfolding ranked longest
  ranked-exhausted r [] h = refl
  ranked-exhausted r ((slug, []) ∷ lanes) h = ranked-exhausted r lanes (omega arith)
  ranked-exhausted r ((slug, hit ∷ hits) ∷ lanes) h = absurd (omega arith)

  by_rank-exhausted :
      (start count : ℕ) (lanes : List (Lane json))
      → longest json lanes ≡ 0
      → by_rank start count lanes ≡ []
  unfolding by_rank
  by_rank-exhausted start zero lanes h = refl
  by_rank-exhausted start (suc count) lanes h =
      rw (ranked-exhausted start lanes h, by_rank-exhausted (suc start) count lanes h)

  has_hits : List (Lane json) → Bool
  has_hits [] = false
  has_hits ((slug, []) ∷ lanes) = has_hits lanes
  has_hits ((slug, hit ∷ hits) ∷ lanes) = true

  has_hits-longest : (lanes : List (Lane json)) → has_hits lanes ≡ true → 0 < longest json lanes
  unfolding has_hits longest
  has_hits-longest [] h = cc
  has_hits-longest ((slug, []) ∷ lanes) h = omega (arith, has_hits-longest lanes h)
  has_hits-longest ((slug, hit ∷ hits) ∷ lanes) h = omega arith

  no_hits-longest : (lanes : List (Lane json)) → has_hits lanes ≡ false → longest json lanes ≡ 0
  unfolding has_hits longest
  no_hits-longest [] h = refl
  no_hits-longest ((slug, []) ∷ lanes) h = omega (arith, no_hits-longest lanes h)
  no_hits-longest ((slug, hit ∷ hits) ∷ lanes) h = absurd (cc)

  stop_at_limit :
      (limit : ℕ) (merged rest : List Value) (x : Value)
      → length merged < max limit 1
      → leb limit (length (merged ++ x ∷ [])) ≡ true
      → (leb (max limit 1) (length (merged ++ x ∷ rest)) ≡ true)
        × (take (max limit 1) (merged ++ x ∷ rest) ≡ merged ++ x ∷ [])
  stop_at_limit limit merged rest x h stop =
      let grown = length-append merged (x ∷ []) in
      let grown' = length-append merged (x ∷ rest) in
      (
        ground arith,
        rw (← append_assoc merged (x ∷ []) rest) (
            take-append_of_le (max limit 1) (merged ++ x ∷ []) rest (ground arith)
            ∙ take_of_length-le (max limit 1) (merged ++ x ∷ []) (ground arith)),
      )

  -- What one pass makes of the lanes and the hits merged before it.
  passed : ℕ → List (Lane json) → List Value → Bool → Round json
  passed limit lanes merged progressed =
      let merged' = merged ++ ranked 0 lanes in
      if leb (max limit 1) (length merged')
      then full (take (max limit 1) merged')
      else open_round (tails lanes) merged' (progressed || has_hits lanes)

  round-passed :
      (limit : ℕ) (lanes : List (Lane json)) (merged : List Value) (progressed : Bool)
      → length merged < max limit 1
      → round json limit lanes merged progressed ≡ passed limit lanes merged progressed
  unfolding round passed ranked tails has_hits
  round-passed limit [] merged progressed h = rw append-nil (ground arith)
  round-passed limit ((slug, []) ∷ lanes) merged progressed h =
      rw (round-passed limit lanes merged progressed h) (ground arith)
  round-passed limit ((slug, hit ∷ hits) ∷ lanes) merged progressed h =
      let tagged = with_repo json slug hit in
      let merged' = merged ++ tagged ∷ [] in
      let grown = length-append merged (tagged ∷ []) in
      let whole = append_assoc merged (tagged ∷ []) (ranked 0 lanes) in
      elim (Bool-cases (leb limit (length merged'))) [
        | inl stop ↦
            let (reached, cut) = stop_at_limit limit merged (ranked 0 lanes) tagged h stop in
            rw (stop, reached, cut)
        | inr go ↦
            rw (go, round-passed limit lanes merged' true (ground arith), whole) (ground arith)
      ]

  rounds-by_rank :
      (fuel limit : ℕ) (lanes : List (Lane json)) (merged : List Value)
      → longest json lanes < fuel
      → length merged < max limit 1
      → rounds json fuel limit lanes merged
        ≡ some (take (max limit 1) (merged ++ by_rank 0 fuel lanes))
  unfolding rounds by_rank passed
  rounds-by_rank zero limit lanes merged h k = absurd (omega arith)
  rounds-by_rank (suc fuel) limit lanes merged h k =
      let merged' = merged ++ ranked 0 lanes in
      let rest = by_rank 1 fuel lanes in
      let whole = append_assoc merged (ranked 0 lanes) rest in
      let step = round-passed limit lanes merged false k in
      elim (Bool-cases (leb (max limit 1) (length merged'))) [
        | inl stop ↦
            rw (← whole)
              (ground (arith, step, take-append_of_le (max limit 1) merged' rest (leb→le _ _ stop)))
        | inr go ↦ elim (Bool-cases (has_hits lanes)) [
          | inl more ↦
              let next =
                rounds-by_rank fuel limit (tails lanes) merged'
                  (omega (arith, longest-tails lanes, has_hits-longest lanes more))
                  (ground arith) in
              ground (arith, step, next, by_rank-tails 0 fuel lanes, whole)
          | inr done ↦
              let none_left = no_hits-longest lanes done in
              rw
                (
                  ranked-exhausted 0 lanes none_left,
                  by_rank-exhausted 1 fuel lanes none_left,
                  append-nil,
                )
                (ground (
                  arith,
                  step,
                  ranked-exhausted 0 lanes none_left,
                  append-nil merged,
                  take_of_length-le (max limit 1) merged (omega arith),
                ))
        ]
      ]

  -- Whatever the lanes and the limit: the loop ends, and what it returns is the first hits, as many
  -- as the limit (one, where the limit is 0), of this list: the hits at position 0 of every lane in
  -- the order of the lanes, then those at position 1, and so on to the end of the longest lane, each
  -- with its lane's slug.
  pub merge_hits-by_rank :
      (lanes : List (Lane json)) (limit : ℕ)
      → merge_hits json lanes limit
        ≡ some (take (max limit 1) (by_rank 0 (longest json lanes + 1) lanes))
  unfolding merge_hits
  merge_hits-by_rank lanes limit =
      rounds-by_rank (longest json lanes + 1) limit lanes [] (omega arith) (omega arith)
