-- ===== src/Engine/Dense/Build.antt =====
-- `DenseIndex::build` of crates/cce-engine/src/dense.rs. The embedding model, the digest of a text
-- (BLAKE3) and the arithmetic on floats are parameters.
pub mod Batches
pub mod Complete
pub mod Empty
use cce.Prelude.{
  ℕ, zero, suc, ◌+◌, Bool, true, not, ◌||◌, any, Option, none, some, List, [], ◌∷◌, ◌++◌, map, Text,
  txt, text_eq, ◌==◌, nat_eq, if◌then◌else◌, length,
}
use cce.Prelude.Map.{lookup}
use cce.Prelude.Trim.{is_empty}
use cce.Prelude.Chunks.{batches}
use cce.Engine.Dense.{
  DenseIndex, F32, Result, ok, err, ◌>>=◌, ◌>>◌, fail_if, configuration, embedding, zip,
}

-- What the code uses of f32.
pub record Floats : Type 0 where
  pub is_finite : F32 → Bool
  pub exceeds_epsilon : F32 → Bool
  pub sqrt : F32 → F32
  pub sum : List F32 → F32
  pub mul : F32 → F32 → F32
  pub div : F32 → F32 → F32

pub data EmbedRole : Type 0 where
  document query : EmbedRole

pub record Embedder : Type 0 where
  pub profile : Text
  pub embed : List Text → EmbedRole → Result (List (List F32))

pub record DocumentContent : Type 0 where
  pub document_id : Text
  pub text : Text

-- `if let Some(slot) = slots.get_mut(position)` and an assignment.
unfoldable pub set_slot : {A : Type 0} → ℕ → A → List (Option A) → List (Option A)
set_slot position v [] = []
set_slot zero v (slot ∷ slots) = some v ∷ slots
set_slot (suc position) v (slot ∷ slots) = slot ∷ set_slot position v slots

unfoldable pub place : {A : Type 0} → List ((ℕ × Text) × A) → List (Option A) → List (Option A)
place [] slots = slots
place (((position, _), v) ∷ found) slots = place found (set_slot position v slots)

module _ (text_digest : Text → Text) where
  -- The vector of the same text in the index before.
  unfoldable pub reused : Option (List (Text × List F32)) → DocumentContent → Option (List F32)
  reused none doc = none
  reused (some vectors) doc = lookup (text_digest doc.text) vectors

  unfoldable pub slots :
      Option (List (Text × List F32)) → List DocumentContent → List (Option (List F32))
  slots reusable docs = map (reused reusable) docs

  -- The positions and texts that are left to embed.
  unfoldable pub pending :
      Option (List (Text × List F32)) → ℕ → List DocumentContent → List (ℕ × Text)
  pending reusable position [] = []
  pending reusable position (doc ∷ docs) =
      let rest = pending reusable (position + 1) docs in
      elim (reused reusable doc) [ none ↦ (position, doc.text) ∷ rest | some _ ↦ rest ]

-- The dimension of the first vector, or 0.
abbrev pub first_length : List (List F32) → ℕ
first_length [] = 0
first_length (vector ∷ _) = length vector

module _ (fl : Floats) where
  unfoldable pub normalize : List F32 → List F32
  normalize vector =
      let norm = fl.sqrt (fl.sum (map (λ v. fl.mul v v) vector)) in
      if fl.exceeds_epsilon norm then map (λ v. fl.div v norm) vector else vector

  unfoldable pub normalized : ℕ → List (List F32) → Result (List (List F32))
  normalized dimensions [] = ok []
  normalized dimensions (vector ∷ vectors) = do
    fail_if
        (not (length vector == dimensions)
          || is_empty vector
          || any (λ v. not (fl.is_finite v)) vector)
        (embedding (txt "invalid embedding vector"))
    rest ← normalized dimensions vectors
    ok (normalize vector ∷ rest)

  unfoldable pub validate_and_normalize : List (List F32) → Result (List (List F32))
  validate_and_normalize vectors = normalized (first_length vectors) vectors

  unfoldable pub embed_batches :
      Embedder
      → List (List (ℕ × Text))
      → List (Option (List F32))
      → Result (List (Option (List F32)))
  embed_batches embedder [] filled = ok filled
  embed_batches embedder (batch ∷ rest) filled = do
    vectors ← embedder.embed (map (λ p. p.1) batch) document
    embedded ← validate_and_normalize vectors
    embed_batches embedder rest (place (zip batch embedded) filled)

-- The vectors one after the other, with the dimension of the first.
abbrev get_or_insert : Option ℕ → ℕ → ℕ
get_or_insert none n = n
get_or_insert (some m) n = m

unfoldable pub flatten : Option ℕ → List (Option (List F32)) → Result (Option ℕ × List F32)
flatten dimensions [] = ok (dimensions, [])
flatten dimensions (none ∷ vectors) = flatten dimensions vectors
flatten dimensions (some vector ∷ vectors) = do
  let expected = get_or_insert dimensions (length vector)
  fail_if (not (length vector == expected))
      (embedding (txt "embedding dimensions changed within an index"))
  (found, flat) ← flatten (some expected) vectors
  ok (found, vector ++ flat)

abbrev pub unwrap_or_default : Option ℕ → ℕ
unwrap_or_default none = 0
unwrap_or_default (some n) = n

unfoldable pub build :
    Floats
    → (Text → Text)
    → List DocumentContent
    → Embedder
    → ℕ
    → Option (List (Text × List F32))
    → Result DenseIndex
build fl text_digest documents embedder batch_size reusable = do
  fail_if (batch_size == 0) (configuration (txt "embedding batch size must be positive"))
  let todo = pending text_digest reusable 0 documents
  vectors ←
      embed_batches fl embedder (batches (length todo) batch_size todo)
        (slots text_digest reusable documents)
  (dimensions, flat) ← flatten none vectors
  ok (record {
    profile = embedder.profile;
    dimensions = unwrap_or_default dimensions;
    ids = map (λ doc. doc.document_id) documents;
    vectors = flat;
  })
