-- ===== src/Gateway/Ingest.antt =====
-- The push side of apps/gateway/src/main.rs: blobs, the check of a manifest, and the source tree
-- that a push makes. A file is an inode with its content, and several paths can lead to one inode:
-- a hard link shares the inode of the blob. Calls of the file system fail only where the files
-- themselves make them fail.
pub mod Tree
pub mod Materialized
pub mod Twice
pub mod Missing
use cce.Prelude.{
  ℕ, zero, suc, ◌+◌, ◌-◌, ◌*◌, ◌/◌, ◌%◌, min, Bool, true, false, not, ◌&&◌, ◌||◌, Option, none,
  some, List, [], ◌∷◌, ◌++◌, Text, txt, text_eq, nat_eq, pair_eq, Eq, ◌==◌, ltb, leb, if◌then◌else◌,
  length, map,
}
use cce.Prelude.Strings.{list_eq}
use cce.Prelude.Lists.{any, keep}
use cce.Prelude.Map.{lookup, insert, remove}
use cce.Prelude.Sort.{sort_by, dedup}
use cce.Prelude.Chunks.{batches, concat}
use cce.Prelude.Trim.{is_empty}
use cce.Prelude.Components.{components}
use cce.Gateway.Cache.{SearchCache, invalidate_repo}
use cce.Gateway.Registry.{Registry, RepoEntry, PushRecord, require_repo}
use cce.Gateway.Registry
use cce.Gateway.Registry.Paths.{safe_relpath, blob_path, names}

abbrev pub Path_ : Type 0
Path_ = List Text

instance abbrev pub path_eq : Eq Path_
path_eq = list_eq

-- The contents by inode, the inodes of the blobs by digest, the tree that a push is filling, and the
-- directories of `sources` by name. The source directory of a slug and the staging directory of
-- another one, which is its slug after a dot, can be the same.
pub record Disk : Type 0 where
  pub contents : List (ℕ × List ℕ)
  pub blobs : List (Text × ℕ)
  pub staging : List (Path_ × ℕ)
  pub sources : List (Text × List (Path_ × ℕ))
  pub next_inode : ℕ

pub record StagedFile : Type 0 where
  pub rel : Path_
  pub digest : Text

-- `none` is the error response.
unfoldable pub plan_entry : Text × Text → Option StagedFile
plan_entry (path, digest) = elim (safe_relpath path) [
  | none ↦ none
  | some rel ↦ elim (blob_path digest) [
    | none ↦ none
    | some blob ↦ some (record { rel = names (components rel); digest = digest })
  ]
]

unfoldable pub plan_of : List (Text × Text) → Option (List StagedFile)
plan_of [] = some []
plan_of (file ∷ files) = elim (plan_entry file) [
  | none ↦ none
  | some staged ↦ elim (plan_of files) [ none ↦ none | some plan ↦ some (staged ∷ plan) ]
]

abbrev pub or_nothing : Option (List ℕ) → List ℕ
or_nothing none = []
or_nothing (some bytes) = bytes

unfoldable pub read : Disk → ℕ → List ℕ
read d inode = or_nothing (lookup inode d.contents)

abbrev pub exists : Disk → Text → Bool
exists d digest = elim (lookup digest d.blobs) [ none ↦ false | some _ ↦ true ]

pub data PutResult : Type 0 where
  created no_content bad_digest : PutResult

-- `hash` gives the BLAKE3 digest of a content in hexadecimal digits.
unfoldable pub put_blob : (List ℕ → Text) → Text → List ℕ → Disk → PutResult × Disk
put_blob hash digest body d =
    if not (hash body == digest)
    then (bad_digest, d)
    else (if exists d digest then (no_content, d) else (
      created,
      record d {
        contents = insert d.next_inode body d.contents;
        blobs = insert digest d.next_inode d.blobs;
        next_inode = d.next_inode + 1;
      },
    ))

-- The digests of the files of one chunk whose blob is not there.
unfoldable pub missing_in : Disk → List StagedFile → List Text
missing_in d files = map (λ file. file.digest) (keep (λ file. not (exists d file.digest)) files)

-- `plan.len().div_ceil(MAX_WORKERS.min(plan.len()))`, of a plan that is not empty.
abbrev pub chunk_size : ℕ → ℕ
chunk_size n = (n + min 16 n - 1) / min 16 n

-- Each chunk is scanned by a thread of its own; their results are joined in order.
unfoldable pub missing_blobs : Disk → List StagedFile → List Text
missing_blobs d plan =
    if is_empty plan
    then []
    else dedup (
        sort_by (λ digest. digest)
          (concat (map (missing_in d) (batches (length plan) (chunk_size (length plan)) plan))))

-- One path leads through the other.
unfoldable pub is_prefix : Path_ → Path_ → Bool
is_prefix [] q = true
is_prefix (a ∷ p) [] = false
is_prefix (a ∷ p) (b ∷ q) = a == b && is_prefix p q

-- A file stands where the other path has a directory: `create_dir_all`, or the link and the copy,
-- fail.
unfoldable pub obstructs : Path_ → Path_ → Bool
obstructs p q = not (p == q) && (is_prefix p q || is_prefix q p)

-- `hard_link` fails where the target exists or the directories are on two file systems (`links` is
-- false); `copy` then opens the target, which empties it, and writes what it reads of the blob.
unfoldable pub link_or_copy : Bool → Path_ → ℕ → Disk → Disk
link_or_copy links target blob d = elim (lookup target d.staging) [
  | some old ↦ record d {
    contents = insert old (if old == blob then [] else read d blob) d.contents;
  }
  | none ↦ if links then record d { staging = insert target blob d.staging } else record d {
    contents = insert d.next_inode (read d blob) d.contents;
    staging = insert target d.next_inode d.staging;
    next_inode = d.next_inode + 1;
  }
]

abbrev pub or_zero : Option ℕ → ℕ
or_zero none = 0
or_zero (some n) = n

-- `metadata(&target).len()`.
unfoldable pub size_at : Path_ → Disk → ℕ
size_at target d = length (read d (or_zero (lookup target d.staging)))

unfoldable pub stage : Bool → StagedFile → Disk → Option Disk
stage links file d = elim (lookup file.digest d.blobs) [
  | none ↦ none
  | some blob ↦
      if any (λ e. obstructs file.rel e.0) d.staging
      then none
      else some (link_or_copy links file.rel blob d)
]

-- With the sum of the sizes. A file that fails leaves what is staged already.
unfoldable pub stage_all : Bool → List StagedFile → ℕ → Disk → Option ℕ × Disk
stage_all links [] total d = (some total, d)
stage_all links (file ∷ plan) total d = elim (stage links file d) [
  | none ↦ (none, d)
  | some d' ↦ stage_all links plan (total + size_at file.rel d') d'
]

-- `format!(".{}", repo.slug)`.
abbrev pub staging_name : Text → Text
staging_name slug = b'.' ∷ slug

-- `sources/..` is the data directory: `remove_dir_all` deletes the blobs and all trees in it.
abbrev pub wiped : Disk → Disk
wiped d = record d { contents = []; blobs = []; staging = []; sources = [] }

-- The source directory gives way to the staging directory, which a failure leaves as it is. The one
-- of the slug `..` is the data directory: what is in it is deleted, and then the call fails, since
-- the directory `sources` of its path is gone.
unfoldable pub swap : Text → Option ℕ × Disk → Option ℕ × Disk
swap slug (none, d) =
    (none, record d { sources = insert (staging_name slug) d.staging d.sources; staging = [] })
swap slug (some bytes, d) =
    if slug == txt ".."
    then (none, wiped d)
    else (some bytes, record d { sources = insert slug d.staging d.sources; staging = [] })

-- The staging directory is made anew, filled, and swapped in. The one of the slug `.` is the data
-- directory, and its source directory is `sources/.`: what is in the data directory is deleted, and
-- then the call fails, since `sources` is gone or since `.` cannot be removed.
unfoldable pub materialize : Bool → List StagedFile → Text → Disk → Option ℕ × Disk
materialize links plan slug d =
    if slug == txt "."
    then (none, wiped d)
    else swap slug (
        stage_all links plan 0
          (record d { staging = []; sources = remove (staging_name slug) d.sources }))
