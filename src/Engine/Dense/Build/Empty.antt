-- ===== src/Engine/Dense/Build/Empty.antt =====
-- `DenseIndex::build` and `DenseIndex::encode` of crates/cce-engine/src/dense.rs without documents.
use cce.Prelude.{
  ℕ, ◌^◌, ◌≡◌, ◌<◌, refl, false, Option, List, [], Text, txt, arith, length, ◌==◌, nat_eq,
}
use cce.Prelude.Chunks.{batches}
use cce.Prelude.Utf8.Encoding.{as_bytes}
use cce.Engine.Dense.{DenseIndex, F32, ok, panic, encode}
use cce.Engine.Dense.Written.{u32_bytes-ok}
use cce.Engine.Dense.Build.{Floats, Embedder, build, pending, slots, embed_batches, flatten}

-- Without documents, with a batch size that is not 0 and a model whose profile has fewer than 2^32
-- bytes, an index is built, whose dimension is 0 and that holds no ids and no vectors, and encoding
-- that index panics.
pub no_documents_panic :
    (fl : Floats) (text_digest : Text → Text) (embedder : Embedder) (batch_size : ℕ)
    (reusable : Option (List (Text × List F32)))
    → 0 < batch_size
    → length (as_bytes embedder.profile) < 2 ^ 32
    → (index : DenseIndex) × (build fl text_digest [] embedder batch_size reusable ≡ ok index)
      × (index.dimensions ≡ 0)
      × (index.ids ≡ [])
      × (index.vectors ≡ [])
      × (encode index ≡ panic)
unfolding build batches pending slots embed_batches flatten encode
no_documents_panic fl text_digest embedder batch_size reusable pos short = (
  record { profile = embedder.profile; dimensions = 0; ids = []; vectors = [] },
  rw positive refl,
  refl,
  refl,
  refl,
  rw
      (
        u32_bytes-ok 0 (txt "vector dimension exceeds format") (omega arith),
        u32_bytes-ok (length (as_bytes embedder.profile)) (txt "profile name too long") short,
      )
      refl,
)
  where
    positive : (batch_size == 0) ≡ false
    positive = ground arith
