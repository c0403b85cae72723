-- ===== src/Engine/Dense/Search.antt =====
-- `DenseIndex::search` of crates/cce-engine/src/dense.rs: `embed_query` and `score`. What it
-- uses of f32 is a parameter.
pub mod Top
use cce.Prelude.{
  ℕ, Bool, not, Option, none, some, List, [], ◌∷◌, ◌++◌, map, take, Text, txt, text_eq, ◌==◌,
  nat_eq, if◌then◌else◌, length,
}
use cce.Prelude.Decimal.{decimal}
use cce.Prelude.Ranking.{sort_ranked}
use cce.Engine.Dense.{
  DenseIndex, F32, Result, ok, err, ◌>>=◌, ◌>>◌, fail_if, panic_if, configuration, embedding, zip,
  chunks,
}
use cce.Engine.Dense.Build.{Embedder, query}

pub record DenseSearchHit : Type 0 where
  pub document_id : Text
  pub score : F32

-- `total_leb x y`: `x.total_cmp(&y)` is not `Greater`.
pub record Scores : Type 0 where
  pub sum : List F32 → F32
  pub mul : F32 → F32 → F32
  pub total_leb : F32 → F32 → Bool

-- The first of the vectors.
abbrev first : List (List F32) → Result (List F32)
first [] = err (embedding (txt "embedder returned no query vector"))
first (v ∷ vs) = ok v

unfoldable pub embed_query : DenseIndex → Text → Embedder → Result (List F32)
embed_query index text embedder = do
  fail_if (not (embedder.profile == index.profile)) (
      configuration (
        txt "dense index profile "
        ++ index.profile
        ++ txt " does not match query profile "
        ++ embedder.profile))
  vectors ← embedder.embed (text ∷ []) query
  vector ← first vectors
  fail_if (not (length vector == index.dimensions)) (
      embedding (
        txt "query dimension "
        ++ decimal (length vector)
        ++ txt " does not match index dimension "
        ++ decimal index.dimensions))
  ok vector

module _ (sc : Scores) where
  -- `sort_by(|left, right| right.score.total_cmp(&left.score))`.
  abbrev pub before : DenseSearchHit → DenseSearchHit → Bool
  before left right = sc.total_leb right.score left.score

  unfoldable pub dot : List F32 → List F32 → F32
  dot left right = sc.sum (map (λ p. sc.mul p.0 p.1) (zip left right))

  unfoldable pub scored : List F32 → List (Text × List F32) → List DenseSearchHit
  scored vector entries = map (λ e. record { document_id = e.0; score = dot vector e.1 }) entries

  -- Of dimension 0, `chunks_exact` panics.
  unfoldable pub score : DenseIndex → List F32 → ℕ → Result (List DenseSearchHit)
  score index vector limit = do
    panic_if (index.dimensions == 0)
    ok (
        take limit (
          sort_ranked before
            (scored vector (zip index.ids (chunks index.dimensions index.vectors)))))

  unfoldable pub search : DenseIndex → Text → Embedder → ℕ → Result (List DenseSearchHit)
  search index text embedder limit = do
    vector ← embed_query index text embedder
    score index vector limit
