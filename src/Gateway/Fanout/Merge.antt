-- ===== src/Gateway/Fanout/Merge.antt =====
-- `merge_hits` of apps/gateway/src/fanout.rs: the round-robin interleave of the workers' hits.
pub mod ByRank
use cce.Prelude.{
  ℕ, zero, suc, Bool, true, false, Option, none, some, List, [], ◌∷◌, ◌++◌, Text, txt, leb, length,
  if◌then◌else◌, ◌+◌, max,
}
use cce.Gateway.Json.{Json}

module _ (json : Json) where
  open json use {Value, Object, as_object, object, string, put_member}

  -- A worker's slug and the hits it still has to give.
  abbrev pub Lane : Type 0
  Lane = Text × List Value

  -- `if let Value::Object(ref mut map) = hit { map.insert("repo", …) }`.
  unfoldable pub with_repo : Text → Value → Value
  with_repo slug hit = elim (as_object hit) [
    | none ↦ hit
    | some members ↦ object (put_member (txt "repo") (string slug) members)
  ]

  -- How one pass over the lanes ends: the merged list is full, or the lanes that are left, the
  -- merged list and `progressed`.
  pub data Round : Type 0 where
    full : List Value → Round
    open_round : List Lane → List Value → Bool → Round

  abbrev pub keep_lane : Lane → Round → Round
  keep_lane lane (full merged) = full merged
  keep_lane lane (open_round lanes merged progressed) = open_round (lane ∷ lanes) merged progressed

  unfoldable pub round : ℕ → List Lane → List Value → Bool → Round
  round limit [] merged progressed = open_round [] merged progressed
  round limit ((slug, []) ∷ lanes) merged progressed =
      keep_lane (slug, []) (round limit lanes merged progressed)
  round limit ((slug, hit ∷ hits) ∷ lanes) merged progressed =
      let merged' = merged ++ with_repo slug hit ∷ [] in
      let rest = round limit lanes merged' true in
      if leb limit (length merged') then full merged' else keep_lane (slug, hits) rest

  unfoldable pub rounds : ℕ → ℕ → List Lane → List Value → Option (List Value)
  rounds zero limit lanes merged = none
  rounds (suc fuel) limit lanes merged = elim (round limit lanes merged false) [
    | full merged' ↦ some merged'
    | open_round lanes' merged' progressed ↦ elim progressed [
      | true ↦ rounds fuel limit lanes' merged'
      | false ↦ some merged'
    ]
  ]

  -- The longest lane.
  unfoldable pub longest : List Lane → ℕ
  longest [] = 0
  longest ((_, hits) ∷ lanes) = max (length hits) (longest lanes)

  -- Each pass but the last takes a hit from every lane that has one.
  unfoldable pub merge_hits : List Lane → ℕ → Option (List Value)
  merge_hits lanes limit = rounds (longest lanes + 1) limit lanes []
