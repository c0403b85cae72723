-- ===== src/Gateway/Ingest/Materialized.antt =====
-- The source directory that a push of apps/gateway/src/main.rs makes.
use cce.Prelude.{
  ℕ, ◌+◌, ◌≡◌, refl, ap, ap₂, ◌∙◌, true, false, Bool, some, List, [], ◌∷◌, Text, txt, text_eq, ◌==◌,
  length, All, arith,
}
use cce.Prelude.Map.{lookup, insert, remove, lookup-insert, lookup-remove}
use cce.Gateway.Ingest.{
  Disk, StagedFile, Path_, path_eq, read, stage_all, materialize, swap, staging_name,
}
use cce.Gateway.Ingest.Tree.{
  blob_of, bytes_of, tree_of, Distinct, Stored, Clear-nil, stage_all-link, lookup-tree_of,
}

-- The source and the staging directory of a slug are directories of their own.
abbrev pub IsProper : Text → Type 0
IsProper slug = ((slug == txt ".") ≡ false) × ((slug == txt "..") ≡ false)

-- The directories of `sources` when a push of a slug starts to stage.
abbrev pub others : Text → Disk → List (Text × List (Path_ × ℕ))
others slug d = remove (staging_name slug) d.sources

pub lookup-others :
    (slug name : Text) (tree : List (Path_ × ℕ)) (d : Disk)
    → (slug == name) ≡ false
    → (staging_name slug == name) ≡ false
    → lookup name (insert slug tree (others slug d)) ≡ lookup name d.sources
lookup-others slug name tree d h k =
    lookup-insert slug name tree (others slug d)
    ∙ rw h (lookup-remove (staging_name slug) name d.sources ∙ rw k refl)

pub swap-proper :
    (slug : Text) (bytes : ℕ) (d : Disk)
    → IsProper slug
    → swap slug (some bytes, d)
      ≡ (some bytes, record d { sources = insert slug d.staging d.sources; staging = [] })
unfolding swap
swap-proper slug bytes d (h, k) = rw k refl

pub materialize-proper :
    (links : Bool) (plan : List StagedFile) (slug : Text) (d : Disk)
    → IsProper slug
    → materialize links plan slug d
      ≡ swap slug (stage_all links plan 0 (record d { staging = []; sources = others slug d }))
unfolding materialize
materialize-proper links plan slug d (h, k) = rw h refl

-- The directories of `sources` play no part in what is staged.
tree_of-elsewhere :
    (d : Disk) (sources : List (Text × List (Path_ × ℕ))) (plan : List StagedFile)
    (tree : List (Path_ × ℕ))
    → tree_of (record d { sources = sources }) plan tree ≡ tree_of d plan tree
unfolding tree_of
tree_of-elsewhere d sources [] tree = refl
tree_of-elsewhere d sources (file ∷ plan) tree =
    tree_of-elsewhere d sources plan (insert file.rel (blob_of d file) tree)

bytes-elsewhere :
    (d : Disk) (sources : List (Text × List (Path_ × ℕ))) (plan : List StagedFile)
    → bytes_of (record d { sources = sources }) plan ≡ bytes_of d plan
unfolding read
bytes-elsewhere d sources [] = refl
bytes-elsewhere d sources (file ∷ plan) =
    ap (λ (n : ℕ). length (read d (blob_of d file)) + n) (bytes-elsewhere d sources plan)

-- On one file system, for a slug that is neither `.` nor `..`, a manifest none of whose paths leads
-- through another and whose blobs are all stored is materialized: the sizes of its blobs are summed
-- up, the source directory of the slug gets each file of the manifest as a link to its blob, and no
-- content and no blob is changed.
pub materialize_links :
    (plan : List StagedFile) (slug : Text) (d : Disk)
    → IsProper slug
    → Distinct plan
    → Stored d plan
    → (tree : List (Path_ × ℕ)) × (materialize true plan slug d ≡ (
      some (bytes_of d plan),
      record d { staging = []; sources = insert slug tree (others slug d) },
    ))
      × All (λ file. lookup file.rel tree ≡ some (blob_of d file)) plan
materialize_links plan slug d proper n s = (
  tree_of d plan [],
  materialize-proper true plan slug d proper
      ∙ ap (swap slug) (
          stage_all-link plan 0 (record d { sources = others slug d }) [] n s (Clear-nil plan)
          ∙ ap₂
              (λ (m : ℕ) (tree : List (Path_ × ℕ)).
                (some m, record d { staging = tree; sources = others slug d }))
              (omega (arith, bytes-elsewhere d (others slug d) plan))
              (tree_of-elsewhere d (others slug d) plan []))
      ∙ swap-proper slug (bytes_of d plan)
          (record d { staging = tree_of d plan []; sources = others slug d }) proper,
  lookup-tree_of d plan [] n,
)
