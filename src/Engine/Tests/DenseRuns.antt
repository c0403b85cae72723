-- ===== src/Engine/Tests/DenseRuns.antt =====
-- Runs of crates/cce-engine/src/dense.rs.
use cce.Prelude.{
  ℕ, ◌≡◌, ◌≤◌, ◌+◌, ◌*◌, refl, true, false, not, is_ascii_alphanumeric, is_ascii_uppercase,
  is_ascii_lowercase, Option, none, some, List, [], ◌∷◌, ◌++◌, map, Text, txt, text_eq, arith,
  length, leb,
}
use cce.Prelude.Strings.{list_beq}
use cce.Prelude.Lists.{any, keep}
use cce.Prelude.Map.{lookup}
use cce.Prelude.Decimal.{decimal}
use cce.Prelude.Split.{split_where}
use cce.Prelude.Words.{Chars}
use cce.Prelude.Chunks.{batches, concat}
use cce.Prelude.Bytes.{to_le_bytes, from_le_bytes, split_at_checked}
use cce.Prelude.Utf8.Encoding.{char_bytes, as_bytes, step, scan, from_utf8}
use cce.Prelude.Ranking.{sort_ranked}
use cce.Engine.Dense.{
  DenseIndex, F32, ok, err, panic, artifact_corrupt, zip, chunks_exact, u32_bytes, floats_bytes,
  entry_bytes, encode, take, u32, u64, text, read_floats, read_entry, read_entries, read_header,
  decode,
}
use cce.Engine.Dense.RoundTrip.{IsStorable, decode-encode}
use cce.Engine.Dense.Canonical.{decode-canonical}
use cce.Engine.Dense.Build.{
  Floats, Embedder, DocumentContent, build, pending, slots, embed_batches, flatten, set_slot, place,
  normalize, normalized, validate_and_normalize, reused,
}
use cce.Engine.Dense.Build.Batches.{Embeds}
use cce.Engine.Dense.Build.Complete.{vector, build_complete}
use cce.Engine.Dense.Build.Empty.{no_documents_panic}
use cce.Engine.Dense.Deterministic.{
  DeterministicEmbedder, Counting, new, tokens, embed_one, embedder_of, new-Embeds,
}
use cce.Engine.Dense.Search.{Scores, embed_query, dot, scored, score, search}
use cce.Engine.Dense.Search.Top.{candidates}

abbrev ascii : Chars
ascii = record {
  is_alphanumeric = is_ascii_alphanumeric;
  is_uppercase = is_ascii_uppercase;
  is_lowercase = is_ascii_lowercase;
}

program : Unit {0}
unfolding list_beq any lookup to_le_bytes from_le_bytes split_at_checked char_bytes as_bytes step
    scan from_utf8 sort_ranked chunks_exact zip u32_bytes floats_bytes entry_bytes encode take u32
    u64 text read_floats read_entry read_entries read_header decode build batches pending slots
    embed_batches flatten set_slot place normalize normalized validate_and_normalize reused concat
    vector embed_query dot scored score search candidates new tokens split_where keep
program = tt

-- The first bytes of the format: the magic and the version.
abbrev start : List ℕ
start = b'C' ∷ b'C' ∷ b'E' ∷ b'V' ∷ b'E' ∷ b'C' ∷ b'1' ∷ 0 ∷ 1 ∷ 0 ∷ 0 ∷ 0 ∷ []

-- One document `é` with the vector 1.0.
abbrev index : DenseIndex
index = record { profile = txt "m"; dimensions = 1; ids = txt "é" ∷ []; vectors = 0x3f80_0000 ∷ [] }

abbrev blob : List ℕ
blob =
    start
    ++ (1 ∷ 0 ∷ 0 ∷ 0 ∷ [])
    ++ (1 ∷ 0 ∷ 0 ∷ 0 ∷ 0 ∷ 0 ∷ 0 ∷ 0 ∷ [])
    ++ (1 ∷ 0 ∷ 0 ∷ 0 ∷ b'm' ∷ [])
    ++ (2 ∷ 0 ∷ 0 ∷ 0 ∷ 0xc3 ∷ 0xa9 ∷ [])
    ++ (0 ∷ 0 ∷ 0x80 ∷ 0x3f ∷ [])

encoded : encode index ≡ ok blob
unfolding program
encoded = refl

decoded : decode blob ≡ ok index
unfolding program
decoded = refl

continued :
    decode (blob ++ (0 ∷ [])) ≡ err (artifact_corrupt (txt "trailing bytes in vector index"))
unfolding program
continued = refl

cut : decode (start ++ (1 ∷ 0 ∷ [])) ≡ err (artifact_corrupt (txt "truncated vector index"))
unfolding program
cut = refl

index-IsStorable : IsStorable index
unfolding program
index-IsStorable = record {
  positive = omega arith;
  narrow = omega arith;
  profile_name = ground arith;
  names = ground arith;
  floats = ground arith;
  aligned = refl;
  ids_fit = omega arith;
  vectors_fit = omega arith;
}

decode-encode_example : (bytes : List ℕ) × (encode index ≡ ok bytes) × (decode bytes ≡ ok index)
decode-encode_example = decode-encode index index-IsStorable

decode-canonical_example : encode index ≡ ok blob
decode-canonical_example = decode-canonical blob index (ground arith) (omega arith) decoded

-- A model of two dimensions, whose arithmetic is that of whole numbers.
abbrev floats : Floats
floats = record {
  is_finite = λ x. true;
  exceeds_epsilon = λ x. false;
  sqrt = λ x. x;
  sum = λ xs. 0;
  mul = λ x y. x * y;
  div = λ x y. x;
}

abbrev vector_of : Text → List F32
vector_of t = length t ∷ 7 ∷ []

abbrev model : Embedder
model = record { profile = txt "m"; embed = λ texts role. ok (map vector_of texts) }

no_bad : (xs : List F32) → any (λ v. not (floats.is_finite v)) xs ≡ false
unfolding program
no_bad [] = refl
no_bad (x ∷ xs) = no_bad xs

model-Embeds : Embeds floats model vector_of 2
unfolding program
model-Embeds = record {
  one_per_input = λ texts. refl;
  width = λ t. refl;
  finite = λ t. refl;
  positive = omega arith;
}

abbrev documents : List DocumentContent
documents =
    record { document_id = txt "a"; text = txt "one" }
    ∷ record { document_id = txt "b"; text = txt "seven" }
    ∷ record { document_id = txt "c"; text = txt "x" }
    ∷ []

abbrev reusable : Option (List (Text × List F32))
reusable = some ((txt "seven", 1 ∷ 2 ∷ []) ∷ [])

abbrev built : DenseIndex
built = record {
  profile = txt "m";
  dimensions = 2;
  ids = txt "a" ∷ txt "b" ∷ txt "c" ∷ [];
  vectors = 3 ∷ 7 ∷ 1 ∷ 2 ∷ 1 ∷ 7 ∷ [];
}

build_run : build floats (λ t. t) documents model 1 reusable ≡ ok built
unfolding program
build_run = refl

build_complete_example :
    build floats (λ t. t) documents model 2 reusable
    ≡ ok (record {
      profile = txt "m";
      dimensions = 2;
      ids = map (λ doc. doc.document_id) documents;
      vectors =
          concat (map (vector floats (λ t. t) model vector_of 2 model-Embeds reusable) documents);
    })
build_complete_example =
    build_complete floats (λ t. t) model vector_of 2 model-Embeds reusable documents 2 (refl, tt)
      (omega arith)

no_documents_panic_example :
    (index : DenseIndex) × (build floats (λ t. t) [] model 8 none ≡ ok index)
    × (index.dimensions ≡ 0)
    × (index.ids ≡ [])
    × (index.vectors ≡ [])
    × (encode index ≡ panic)
unfolding program
no_documents_panic_example =
    no_documents_panic floats (λ t. t) model 8 none (omega arith) (omega arith)

abbrev scores : Scores
scores = record { sum = λ xs. elim xs [ [] ↦ 0 | x ∷ ys ↦ x ]; mul = λ x y. x * y; total_leb = leb }

search_run :
    search scores built (txt "q") model 2
    ≡ ok (
        record { document_id = txt "a"; score = 3 }
        ∷ record { document_id = txt "b"; score = 1 }
        ∷ [])
unfolding program
search_run = refl

abbrev counting : Counting
counting = record { floats = floats; nil = 0; up = λ x. x + 1; down = λ x. x }

abbrev baseline : DeterministicEmbedder
baseline = record { dimensions = 32; profile = txt "deterministic-baseline-32" }

tokens_run : tokens ascii (txt "Find_me, in  B2!") ≡ txt "find_me" ∷ txt "in" ∷ txt "b2" ∷ []
unfolding program
tokens_run = refl

new_run : new 32 ≡ ok baseline
unfolding program decimal
new_run = refl

new-Embeds_example :
    Embeds floats
      (embedder_of ascii counting (λ t. t) baseline)
      (embed_one ascii counting (λ t. t) 32)
      32
    × (32 ≤ 32)
    × (32 ≤ 16384)
new-Embeds_example =
    new-Embeds ascii counting (λ t. t) 32 baseline new_run
      (λ t. no_bad (embed_one ascii counting (λ t. t) 32 t))
