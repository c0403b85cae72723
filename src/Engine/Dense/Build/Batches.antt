-- ===== src/Engine/Dense/Build/Batches.antt =====
-- How `DenseIndex::build` of crates/cce-engine/src/dense.rs embeds the texts in batches.
use cce.Prelude.{
  ℕ, ◌<◌, ◌≡◌, refl, ap, ◌∙◌, false, ◌||◌, ◌==◌, nat_eq, eq_iff, not, any, Option, List, [], ◌∷◌,
  ◌++◌, map, Text, arith, length, length-map, Bool-cases, inl, inr,
}
use cce.Prelude.Trim.{is_empty}
use cce.Prelude.Chunks.{batches, concat, concat-batches}
use cce.Engine.Dense.{F32, ok, zip}
use cce.Engine.Dense.Build.{
  Floats, Embedder, document, set_slot, place, normalize, normalized, validate_and_normalize,
  embed_batches,
}

is_empty-length : {A : Type 0} (xs : List A) → 0 < length xs → is_empty xs ≡ false
is_empty-length [] h = absurd (omega arith)
is_empty-length (x ∷ xs) h = refl

norm : Floats → List F32 → F32
norm fl v = fl.sqrt (fl.sum (map (λ x. fl.mul x x) v))

pub length-normalize : (fl : Floats) (v : List F32) → length (normalize fl v) ≡ length v
unfolding normalize norm
length-normalize fl v = elim (Bool-cases (fl.exceeds_epsilon (norm fl v))) [
  | inl e ↦ rw (e, normalize) (length-map (λ x. fl.div x (norm fl v)) v)
  | inr e ↦ rw (e, normalize) refl
]

-- What the model promises of a text: its vector has `d` entries, all of them finite.
pub record Embeds (fl : Floats) (embedder : Embedder) (vector_of : Text → List F32) (d : ℕ)
    : Type 0 where
  pub one_per_input : (texts : List Text) → embedder.embed texts document ≡ ok (map vector_of texts)
  pub width : (t : Text) → length (vector_of t) ≡ d
  pub finite : (t : Text) → any (λ v. not (fl.is_finite v)) (vector_of t) ≡ false
  pub positive : 0 < d

module _ (fl : Floats) (embedder : Embedder) (vector_of : Text → List F32) (d : ℕ)
    (model : Embeds fl embedder vector_of d) where
  -- A vector that the check lets through.
  accepted :
      (t : Text)
      → (not (length (vector_of t) == d)
          || is_empty (vector_of t)
          || any (λ v. not (fl.is_finite v)) (vector_of t))
        ≡ false
  accepted t = ground (
    arith,
    model.width t,
    model.finite t,
    model.positive,
    is_empty-length (vector_of t),
    eq_iff d d,
  )

  normalized-map :
      (ts : List Text)
      → normalized fl d (map vector_of ts) ≡ ok (map (λ t. normalize fl (vector_of t)) ts)
  unfolding normalized
  normalized-map [] = refl
  normalized-map (t ∷ ts) = rw (accepted t, normalized-map ts) refl

  validate-map :
      (ts : List Text)
      → validate_and_normalize fl (map vector_of ts) ≡ ok (map (λ t. normalize fl (vector_of t)) ts)
  unfolding validate_and_normalize normalized
  validate-map [] = refl
  validate-map (t ∷ ts) =
      ap (λ n. normalized fl n (map vector_of (t ∷ ts))) (model.width t) ∙ normalized-map (t ∷ ts)

  -- The vectors of the texts, each in its slot.
  unfoldable pub placed : List (ℕ × Text) → List (Option (List F32)) → List (Option (List F32))
  placed [] filled = filled
  placed ((position, t) ∷ todo) filled =
      placed todo (set_slot position (normalize fl (vector_of t)) filled)

  place-zip :
      (todo : List (ℕ × Text)) (filled : List (Option (List F32)))
      → place (zip todo (map (λ t. normalize fl (vector_of t)) (map (λ p. p.1) todo))) filled
        ≡ placed todo filled
  unfolding place zip placed
  place-zip [] filled = refl
  place-zip (p ∷ todo) filled = place-zip todo _

  placed-append :
      (todo more : List (ℕ × Text)) (filled : List (Option (List F32)))
      → placed (todo ++ more) filled ≡ placed more (placed todo filled)
  unfolding placed
  placed-append [] more filled = refl
  placed-append (p ∷ todo) more filled = placed-append todo more _

  embed_batches-placed :
      (bs : List (List (ℕ × Text))) (filled : List (Option (List F32)))
      → embed_batches fl embedder bs filled ≡ ok (placed (concat bs) filled)
  unfolding embed_batches concat placed
  embed_batches-placed [] filled = refl
  embed_batches-placed (batch ∷ bs) filled =
      rw
        (
          model.one_per_input (map (λ p. p.1) batch),
          validate-map (map (λ p. p.1) batch),
          place-zip batch filled,
          embed_batches-placed bs (placed batch filled),
          placed-append batch (concat bs) filled,
        )
        refl

  -- Whatever the width of the batches, each text's vector comes into its slot.
  pub batches-placed :
      (width : ℕ) (todo : List (ℕ × Text)) (filled : List (Option (List F32)))
      → 0 < width
      → embed_batches fl embedder (batches (length todo) width todo) filled
        ≡ ok (placed todo filled)
  batches-placed width todo filled w =
      embed_batches-placed (batches (length todo) width todo) filled
      ∙ ap (λ ps. ok (placed ps filled)) (concat-batches (length todo) width todo (omega arith) w)
