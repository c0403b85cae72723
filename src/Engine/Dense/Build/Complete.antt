-- ===== src/Engine/Dense/Build/Complete.antt =====
-- What `DenseIndex::build` of crates/cce-engine/src/dense.rs builds.
use cce.Prelude.{
  ℕ, ◌+◌, ◌<◌, ◌≡◌, refl, sym, ap, ◌∙◌, false, Option, none, some, List, [], ◌∷◌, ◌++◌, map, Text,
  arith, length, length-append, text_eq, inl, inr, Option-cases, ◌==◌, nat_eq, eq_refl,
}
use mathlib.Core.List.{append_assoc}
use cce.Prelude.Chunks.{batches, concat}
use cce.Prelude.Map.{Every, Every-lookup}
use cce.Engine.Dense.{F32, ok}
use cce.Engine.Dense.Build.{
  Floats, Embedder, DocumentContent, normalize, reused, slots, pending, set_slot, flatten, batches,
  embed_batches, build, unwrap_or_default,
}
use cce.Engine.Dense.Build.Batches.{length-normalize, Embeds, placed, batches-placed}

-- The vectors of the index before have `d` entries.
abbrev pub Aligned : ℕ → Option (List (Text × List F32)) → Type 0
Aligned d none = Unit
Aligned d (some vectors) = Every (λ _ v. length v ≡ d) vectors

length-reused :
    (text_digest : Text → Text) (d : ℕ) (reusable : Option (List (Text × List F32)))
    (doc : DocumentContent) (v : List F32)
    → Aligned d reusable
    → reused text_digest reusable doc ≡ some v
    → length v ≡ d
unfolding reused
length-reused text_digest d none doc v h e = cc
length-reused text_digest d (some vectors) doc v h e =
    Every-lookup (λ _ v. length v ≡ d) (text_digest doc.text) v vectors h e

module _ (fl : Floats) (text_digest : Text → Text) (embedder : Embedder)
    (vector_of : Text → List F32) (d : ℕ) (model : Embeds fl embedder vector_of d)
    (reusable : Option (List (Text × List F32))) where
  -- The vector of a document: the one of the same text in the index before, or a new one.
  unfoldable pub vector : DocumentContent → List F32
  vector doc = elim (reused text_digest reusable doc) [
    | none ↦ normalize fl (vector_of doc.text)
    | some v ↦ v
  ]

  set_slot-append :
      (front : List (Option (List F32))) (v : List F32) (slot : Option (List F32))
      (back : List (Option (List F32)))
      → set_slot (length front) v (front ++ (slot ∷ back)) ≡ front ++ (some v ∷ back)
  unfolding set_slot
  set_slot-append [] v slot back = refl
  set_slot-append (x ∷ front) v slot back = ap (λ xs. x ∷ xs) (set_slot-append front v slot back)

  filled : List DocumentContent → List (Option (List F32))
  filled docs = map (λ doc. some (vector doc)) docs

  pending_new :
      (position : ℕ) (doc : DocumentContent) (docs : List DocumentContent)
      → reused text_digest reusable doc ≡ none
      → pending text_digest reusable position (doc ∷ docs)
        ≡ (position, doc.text) ∷ pending text_digest reusable (position + 1) docs
  unfolding pending
  pending_new position doc docs e = rw (e, pending) refl

  pending_old :
      (position : ℕ) (doc : DocumentContent) (docs : List DocumentContent) (v : List F32)
      → reused text_digest reusable doc ≡ some v
      → pending text_digest reusable position (doc ∷ docs)
        ≡ pending text_digest reusable (position + 1) docs
  unfolding pending
  pending_old position doc docs v e = rw (e, pending) refl

  slots_cons :
      (doc : DocumentContent) (docs : List DocumentContent)
      → slots text_digest reusable (doc ∷ docs)
        ≡ reused text_digest reusable doc ∷ slots text_digest reusable docs
  unfolding slots
  slots_cons doc docs = refl

  vector_new :
      (doc : DocumentContent)
      → reused text_digest reusable doc ≡ none
      → vector doc ≡ normalize fl (vector_of doc.text)
  unfolding vector
  vector_new doc e = rw (e, vector) refl

  vector_old :
      (doc : DocumentContent) (v : List F32)
      → reused text_digest reusable doc ≡ some v
      → vector doc ≡ v
  unfolding vector
  vector_old doc v e = rw (e, vector) refl

  -- After the slots `front`, the rest of the slots become full.
  Fills : List DocumentContent → List (Option (List F32)) → Type 0
  Fills docs front =
      placed fl embedder vector_of d model (pending text_digest reusable (length front) docs)
        (front ++ slots text_digest reusable docs)
      ≡ front ++ filled docs

  Fills-next :
      (doc : DocumentContent) (docs : List DocumentContent) (front : List (Option (List F32)))
      → Fills docs (front ++ (some (vector doc) ∷ []))
      → placed fl embedder vector_of d model
          (pending text_digest reusable (length front + 1) docs)
          (front ++ (some (vector doc) ∷ slots text_digest reusable docs))
        ≡ front ++ filled (doc ∷ docs)
  unfolding Fills filled
  Fills-next doc docs front h =
      rw
        (
          append_assoc front (some (vector doc) ∷ []) (slots text_digest reusable docs),
          append_assoc front (some (vector doc) ∷ []) (filled docs),
          length-append front (some (vector doc) ∷ []),
        )
        at h

  Fills-nil : (front : List (Option (List F32))) → Fills [] front
  unfolding Fills placed pending slots filled
  Fills-nil front = refl

  placed_cons :
      (docs : List DocumentContent) (doc : DocumentContent) (front : List (Option (List F32)))
      → placed fl embedder vector_of d model
          ((length front, doc.text) ∷ pending text_digest reusable (length front + 1) docs)
          (front ++ (none ∷ slots text_digest reusable docs))
        ≡ placed fl embedder vector_of d model
            (pending text_digest reusable (length front + 1) docs)
            (front ++ (some (normalize fl (vector_of doc.text)) ∷ slots text_digest reusable docs))
  unfolding placed
  placed_cons docs doc front =
      rw
        (
          set_slot-append front (normalize fl (vector_of doc.text)) none
              (slots text_digest reusable docs),
          placed,
        )
        refl

  placed-pending :
      (docs : List DocumentContent) (front : List (Option (List F32))) → Fills docs front
  unfolding Fills
  placed-pending [] front = Fills-nil front
  placed-pending (doc ∷ docs) front = elim (Option-cases (reused text_digest reusable doc)) [
    | inl e ↦
        rw
          (
            pending_new (length front) doc docs e,
            slots_cons doc docs,
            e,
            placed_cons docs doc front,
            sym (vector_new doc e),
          )
          (Fills-next doc docs front (placed-pending docs _))
    | inr (v, e) ↦
        rw
          (
            pending_old (length front) doc docs v e,
            slots_cons doc docs,
            e,
            sym (vector_old doc v e),
          )
          (Fills-next doc docs front (placed-pending docs _))
  ]

  full_slots :
      (docs : List DocumentContent)
      → placed fl embedder vector_of d model
          (pending text_digest reusable 0 docs)
          (slots text_digest reusable docs)
        ≡ filled docs
  unfolding Fills
  full_slots docs = placed-pending docs []

  length-vector : Aligned d reusable → (doc : DocumentContent) → length (vector doc) ≡ d
  length-vector aligned doc = elim (Option-cases (reused text_digest reusable doc)) [
    | inl e ↦
        rw (vector_new doc e) (length-normalize fl (vector_of doc.text) ∙ model.width doc.text)
    | inr (v, e) ↦ rw (vector_old doc v e) (length-reused text_digest d reusable doc v aligned e)
  ]

  flatten-filled :
      (docs : List DocumentContent)
      → Aligned d reusable
      → flatten (some d) (filled docs) ≡ ok (some d, concat (map vector docs))
  unfolding flatten filled concat
  flatten-filled [] aligned = refl
  flatten-filled (doc ∷ docs) aligned =
      rw (length-vector aligned doc, eq_refl d, flatten-filled docs aligned) refl

  first_width : List DocumentContent → Option ℕ
  first_width [] = none
  first_width (doc ∷ docs) = some d

  flatten_all :
      (docs : List DocumentContent)
      → Aligned d reusable
      → flatten none (filled docs) ≡ ok (first_width docs, concat (map vector docs))
  unfolding flatten filled concat first_width
  flatten_all [] aligned = refl
  flatten_all (doc ∷ docs) aligned =
      rw (length-vector aligned doc, eq_refl d, flatten-filled docs aligned) refl

  -- With no document the index is empty and has dimension 0.
  abbrev pub dimension_of : List DocumentContent → ℕ
  dimension_of [] = 0
  dimension_of (doc ∷ docs) = d

  first_width-dimension_of :
      (docs : List DocumentContent) → unwrap_or_default (first_width docs) ≡ dimension_of docs
  unfolding first_width
  first_width-dimension_of [] = refl
  first_width-dimension_of (doc ∷ docs) = refl

  -- With a model that answers every batch with one finite vector of the dimension `d` for each text,
  -- where `d` is not 0, with a batch size that is not 0, and with vectors of the dimension `d` to
  -- reuse, if any: building succeeds, and the index holds for every document, in the order of the
  -- documents, its id and its vector, which does not depend on the size of the batches.
  pub build_complete :
      (documents : List DocumentContent) (batch_size : ℕ)
      → Aligned d reusable
      → 0 < batch_size
      → build fl text_digest documents embedder batch_size reusable
        ≡ ok (record {
          profile = embedder.profile;
          dimensions = dimension_of documents;
          ids = map (λ doc. doc.document_id) documents;
          vectors = concat (map vector documents);
        })
  unfolding build
  build_complete documents batch_size aligned pos =
      rw (positive, every_slot, flatten_all documents aligned, first_width-dimension_of documents)
        refl
    where
      positive : (batch_size == 0) ≡ false
      positive = ground arith

      todo : List (ℕ × Text)
      todo = pending text_digest reusable 0 documents

      every_slot :
          embed_batches fl embedder
            (batches (length todo) batch_size todo)
            (slots text_digest reusable documents)
          ≡ ok (filled documents)
      every_slot =
          batches-placed fl embedder vector_of d model batch_size todo
            (slots text_digest reusable documents) pos
          ∙ ap ok (full_slots documents)
