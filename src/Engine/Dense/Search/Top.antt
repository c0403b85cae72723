-- ===== src/Engine/Dense/Search/Top.antt =====
-- What `DenseIndex::search` of crates/cce-engine/src/dense.rs keeps.
use cce.Prelude.{◌≡◌, Bool, List, [], ◌∷◌, Text, length, nat_eq, text_eq}
use cce.Engine.Dense.{DenseIndex, F32, ok, zip, chunks}
use cce.Engine.Dense.Build.{Embedder, query}
use cce.Engine.Dense.Search.{DenseSearchHit, Scores, scored, score}

-- A query vector that the model gives for this index.
pub record Answers (index : DenseIndex) (embedder : Embedder) (text : Text) (vector : List F32)
    : Type 0 where
  pub rest : List (List F32)
  pub same_profile : embedder.profile ≡ index.profile
  pub embedded : embedder.embed (text ∷ []) query ≡ ok (vector ∷ rest)
  pub width : length vector ≡ index.dimensions

-- The score of the first is at least that of the second, in the total order of f32.
abbrev pub at_least : Scores → DenseSearchHit → DenseSearchHit → Bool
at_least sc hit other = sc.total_leb other.score hit.score

-- Every vector of the index with its score for a query.
unfoldable pub candidates : Scores → DenseIndex → List F32 → List DenseSearchHit
candidates sc index vector =
    scored sc vector (zip index.ids (chunks index.dimensions index.vectors))
