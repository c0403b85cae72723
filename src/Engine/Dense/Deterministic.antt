-- ===== src/Engine/Dense/Deterministic.antt =====
-- `DeterministicEmbedder` of crates/cce-engine/src/dense.rs. The 32 bytes of a BLAKE3 hash, the
-- arithmetic on floats and the Unicode tests on characters are parameters.
use cce.Prelude.{
  ℕ, zero, suc, ◌%◌, ◌≤◌, ◌≡◌, refl, ap, ◌∙◌, Bool, true, false, not, ◌&&◌, List, [], ◌∷◌, ◌++◌,
  map, take, get_elem?, Option, none, some, Text, txt, ◌==◌, nat_eq, leb, if◌then◌else◌, length,
  keep, any, arith, to_ascii_lowercase,
}
use cce.Prelude.Decimal.{decimal}
use cce.Prelude.Split.{split_where}
use cce.Prelude.Trim.{is_empty}
use cce.Prelude.Words.{Chars}
use cce.Prelude.Bytes.{from_le_bytes}
use cce.Engine.Dense.{F32, Result, ok, ◌>>◌, fail_if, configuration}
use cce.Engine.Dense.Build.{Floats, Embedder, EmbedRole, normalize}
use cce.Engine.Dense.Build.Batches.{Embeds, length-normalize}

pub record DeterministicEmbedder : Type 0 where
  pub dimensions : ℕ
  pub profile : Text

unfoldable pub new : ℕ → Result DeterministicEmbedder
new dimensions = do
  fail_if (not (leb 32 dimensions && leb dimensions 16384)) (
      configuration
        (txt "deterministic embedding dimensions must be 32..=16384, got " ++ decimal dimensions))
  ok (record {
    dimensions = dimensions;
    profile = txt "deterministic-baseline-" ++ decimal dimensions;
  })

unfoldable pub tokens : Chars → Text → List Text
tokens ch value = map (map to_ascii_lowercase) (
    keep (λ token. not (is_empty token))
      (split_where (λ c. not (ch.is_alphanumeric c) && not (c == b'_')) value))

-- The sums of f32 that it makes: 0.0, and the addition of 1.0 or of -1.0.
pub record Counting : Type 0 where
  pub floats : Floats
  pub nil : F32
  pub up : F32 → F32
  pub down : F32 → F32

-- `vec![0.0; n]`.
unfoldable pub repeat : ℕ → F32 → List F32
repeat zero x = []
repeat (suc n) x = x ∷ repeat n x

-- `if let Some(value) = vector.get_mut(slot)` and a change of it.
unfoldable pub modify : ℕ → (F32 → F32) → List F32 → List F32
modify slot f [] = []
modify zero f (x ∷ xs) = f x ∷ xs
modify (suc slot) f (x ∷ xs) = x ∷ modify slot f xs

-- `bytes.get(8).unwrap_or(0) & 1 == 0`.
abbrev is_even : Option ℕ → Bool
is_even none = true
is_even (some b) = b % 2 == 0

-- `first_chunk::<8>().unwrap_or_default()`: fewer than eight bytes count as eight zeros.
abbrev first_chunk : List ℕ → List ℕ
first_chunk bytes = if leb 8 (length bytes) then take 8 bytes else []

module _ (ch : Chars) (co : Counting) (hash : Text → List ℕ) where
  unfoldable pub add_token : ℕ → Text → List F32 → List F32
  add_token dimensions token vector =
      let bytes = hash token in
      modify (from_le_bytes (first_chunk bytes) % dimensions)
        (if is_even (get_elem? bytes 8) then co.up else co.down) vector

  unfoldable pub add_tokens : ℕ → List Text → List F32 → List F32
  add_tokens dimensions [] vector = vector
  add_tokens dimensions (token ∷ rest) vector =
      add_tokens dimensions rest (add_token dimensions token vector)

  unfoldable pub embed_one : ℕ → Text → List F32
  embed_one dimensions input =
      normalize co.floats (add_tokens dimensions (tokens ch input) (repeat dimensions co.nil))

  unfoldable pub embed : DeterministicEmbedder → List Text → EmbedRole → Result (List (List F32))
  embed embedder inputs role = ok (map (embed_one embedder.dimensions) inputs)

  -- The embedder as `DenseIndex::build` and `search` use it.
  unfoldable pub embedder_of : DeterministicEmbedder → Embedder
  embedder_of embedder = record { profile = embedder.profile; embed = embed embedder }

  length-repeat : (n : ℕ) (x : F32) → length (repeat n x) ≡ n
  unfolding repeat
  length-repeat zero x = refl
  length-repeat (suc n) x = ap (λ (m : ℕ). suc m) (length-repeat n x)

  length-modify : (slot : ℕ) (f : F32 → F32) (xs : List F32) → length (modify slot f xs) ≡ length xs
  unfolding modify
  length-modify slot f [] = refl
  length-modify zero f (x ∷ xs) = refl
  length-modify (suc slot) f (x ∷ xs) = ap (λ (m : ℕ). suc m) (length-modify slot f xs)

  length-add_tokens :
      (d : ℕ) (ts : List Text) (xs : List F32) → length (add_tokens d ts xs) ≡ length xs
  unfolding add_tokens add_token
  length-add_tokens d [] xs = refl
  length-add_tokens d (t ∷ ts) xs = length-add_tokens d ts _ ∙ length-modify _ _ xs

  length-embed_one : (d : ℕ) (input : Text) → length (embed_one d input) ≡ d
  unfolding embed_one
  length-embed_one d input =
      length-normalize co.floats _
      ∙ length-add_tokens d (tokens ch input) (repeat d co.nil)
      ∙ length-repeat d co.nil

  -- `new` accepts the dimensions from 32 to 16384, and the embedder then embeds every list of texts
  -- into one vector of that dimension for each, in their order, if the floats that it makes are
  -- finite.
  pub new-Embeds :
      (dimensions : ℕ) (embedder : DeterministicEmbedder)
      → new dimensions ≡ ok embedder
      → ((t : Text) → any (λ v. not (co.floats.is_finite v)) (embed_one dimensions t) ≡ false)
      → Embeds co.floats (embedder_of embedder) (embed_one dimensions) dimensions
        × (32 ≤ dimensions)
        × (dimensions ≤ 16384)
  unfolding new embedder_of embed
  new-Embeds dimensions embedder h finite = (
    record {
      one_per_input = λ texts. ap (λ (d : ℕ). ok (map (embed_one d) texts)) same;
      width = length-embed_one dimensions;
      finite = finite;
      positive = ground arith;
    },
    ground arith,
    ground arith,
  )
    where
      same : embedder.dimensions ≡ dimensions
      same = ground arith
