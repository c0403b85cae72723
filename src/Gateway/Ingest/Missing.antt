-- ===== src/Gateway/Ingest/Missing.antt =====
-- Which blobs the check of apps/gateway/src/main.rs reports.
use cce.Prelude.{
  ℕ, ◌<◌, ◌≡◌, refl, sym, ap, ◌∙◌, not, ◌&&◌, List, [], ◌∷◌, ◌++◌, map, Text, text_eq, ◌==◌, length,
  arith,
}
use cce.Prelude.Lists.{any, keep, keep-append}
use cce.Prelude.Sort.{sort_by, dedup, any-sort_by, any-dedup}
use cce.Prelude.Chunks.{batches, concat, concat-batches}
use cce.Gateway.Ingest.{Disk, StagedFile, exists, missing_in, missing_blobs, chunk_size}

map-append : {A B : Type 0} (f : A → B) (xs ys : List A) → map f (xs ++ ys) ≡ map f xs ++ map f ys
map-append f [] ys = refl
map-append f (x ∷ xs) ys = ap (λ zs. f x ∷ zs) (map-append f xs ys)

missing_in-append :
    (d : Disk) (files more : List StagedFile)
    → missing_in d (files ++ more) ≡ missing_in d files ++ missing_in d more
unfolding missing_in
missing_in-append d files more =
    ap (map (λ file. file.digest)) (keep-append (λ file. not (exists d file.digest)) files more)
    ∙ map-append (λ file. file.digest) _ _

missing_in-chunks :
    (d : Disk) (chunks : List (List StagedFile))
    → concat (map (missing_in d) chunks) ≡ missing_in d (concat chunks)
unfolding concat missing_in keep
missing_in-chunks d [] = refl
missing_in-chunks d (files ∷ chunks) =
    ap (λ r. missing_in d files ++ r) (missing_in-chunks d chunks)
    ∙ sym (missing_in-append d files (concat chunks))

chunk_size-positive : (n : ℕ) → 0 < n → 0 < chunk_size n
chunk_size-positive n h = grind arith

any-missing_in :
    (d : Disk) (g : Text) (plan : List StagedFile)
    → any (λ m. m == g) (missing_in d plan)
      ≡ any (λ file. file.digest == g && not (exists d file.digest)) plan
unfolding missing_in keep any
any-missing_in d g [] = refl
any-missing_in d g (file ∷ plan) = ground (arith, any-missing_in d g plan)

pub joined :
    (d : Disk) (file : StagedFile) (plan : List StagedFile)
    → missing_blobs d (file ∷ plan)
      ≡ dedup (sort_by (λ digest. digest) (missing_in d (file ∷ plan)))
unfolding missing_blobs
joined d file plan =
    ap (λ found. dedup (sort_by (λ digest. digest) found))
      (missing_in-chunks d
          (batches (length (file ∷ plan)) (chunk_size (length (file ∷ plan))) (file ∷ plan))
        ∙ ap (missing_in d) (
            concat-batches (length (file ∷ plan)) (chunk_size (length (file ∷ plan))) (file ∷ plan)
              (omega arith) (chunk_size-positive (length (file ∷ plan)) (omega arith))))

-- A digest is reported missing exactly if a file of the manifest has it and no blob of this digest
-- is stored, however the files are spread over the threads.
pub missing_blobs_lem :
    (d : Disk) (plan : List StagedFile) (g : Text)
    → any (λ m. m == g) (missing_blobs d plan)
      ≡ any (λ file. file.digest == g && not (exists d file.digest)) plan
unfolding missing_blobs any
missing_blobs_lem d [] g = refl
missing_blobs_lem d (file ∷ plan) g =
    ap (any (λ m. m == g)) (joined d file plan)
    ∙ any-dedup (λ m. m == g) (sort_by (λ digest. digest) (missing_in d (file ∷ plan)))
    ∙ any-sort_by (λ digest. digest) (λ m. m == g) (missing_in d (file ∷ plan))
    ∙ any-missing_in d g (file ∷ plan)
