-- ===== src/Gateway/Push/Published.antt =====
-- What a push of apps/gateway/src/main.rs leaves behind.
use cce.Prelude.{
  ℕ, ◌≤◌, ◌≡◌, refl, ap, ◌∙◌, true, false, not, Option, none, some, List, [], ◌∷◌, Text, text_eq,
  ◌==◌, eq_refl, ltb, length, All, arith,
}
use cce.Prelude.Lists.{keep}
use cce.Prelude.Map.{lookup, insert, lookup-insert, lookup-retain_key}
use cce.Prelude.Sort.{sort_by, dedup}
use cce.Gateway.Cache.{SearchCache, Key, key_eq, get, invalidate_repo}
use cce.Gateway.Registry
use cce.Gateway.Registry.{RepoEntry, require_repo}
use cce.Gateway.Ingest.{
  Disk, StagedFile, Path_, path_eq, plan_of, missing_blobs, missing_in, materialize, staging_name,
}
use cce.Gateway.Ingest.Tree.{Distinct, Stored, bytes_of, blob_of}
use cce.Gateway.Ingest.Materialized.{IsProper, others, lookup-others, materialize_links}
use cce.Gateway.Ingest.Missing.{joined}
use cce.Gateway.Push.{World, Outside, pushed, commit, push_to, push_inner, record_push, record_of}

invalidated :
    (repo_id digest : Text) (now : ℕ) (c : SearchCache)
    → get now (repo_id, digest) (invalidate_repo repo_id c) ≡ none
unfolding get invalidate_repo
invalidated repo_id digest now c =
    rw
      (
        lookup-retain_key (λ (k : Key). not (k.0 == repo_id)) (repo_id, digest) c.entries,
        eq_refl repo_id,
      )
      refl

nothing_missing_in : (d : Disk) (plan : List StagedFile) → Stored d plan → missing_in d plan ≡ []
unfolding missing_in keep
nothing_missing_in d [] h = refl
nothing_missing_in d (file ∷ plan) (hf, h) = rw hf (nothing_missing_in d plan h)

nothing_missing : (d : Disk) (plan : List StagedFile) → Stored d plan → missing_blobs d plan ≡ []
unfolding missing_blobs sort_by dedup
nothing_missing d [] h = refl
nothing_missing d (file ∷ plan) h =
    joined d file plan ∙ ap (λ m. dedup (sort_by (λ t. t) m)) (nothing_missing_in d (file ∷ plan) h)

-- What a push needs: a registered repository whose slug is neither `.` nor `..`, a manifest of at most 500,000 files with valid paths
-- and digests, none of whose paths leads through another, and the blobs of all its files, on one
-- file system.
pub record Ready (out : Outside) (id : Text) (repo : RepoEntry) (files : List (Text × Text))
    (plan : List StagedFile) (w : World) : Type 0 where
  pub links : out.links ≡ true
  pub registered : require_repo out.values id w.registry ≡ Registry.ok repo
  pub proper : IsProper repo.slug
  pub few : length files ≤ 500000
  pub valid : plan_of files ≡ some plan
  pub distinct : Distinct plan
  pub stored : Stored w.disk plan

pub push_inner-Ready :
    (out : Outside) (id : Text) (repo : RepoEntry) (revision : Option Text)
    (files : List (Text × Text)) (plan : List StagedFile) (w : World)
    → Ready out id repo files plan w
    → push_inner out id revision files w
      ≡ commit out id repo revision (length files) (materialize true plan repo.slug w.disk) w
unfolding push_inner push_to
push_inner-Ready out id repo revision files plan w r =
    rw (r.registered, push_inner, few, r.valid, nothing_missing w.disk plan r.stored, r.links) refl
  where
    few : ltb 500000 (length files) ≡ false
    few = ground (arith, r.few)

-- A push of a registered repository whose slug is neither `.` nor `..`, with a manifest of at most
-- 500,000 files with valid paths and digests, none of whose paths leads through another, whose blobs
-- are all stored, on one file system, and whose registry is written, answers the number of files
-- and their bytes.
-- After it the source directory of the repository has each file of the manifest, as a link to its
-- blob, every other directory of `sources` but the staging directory is as it was, no blob and no
-- content is changed, and no response stored for the repository is replayed.
pub push_publishes :
    (out : Outside) (id : Text) (repo : RepoEntry) (revision : Option Text)
    (files : List (Text × Text)) (plan : List StagedFile) (w : World)
    → Ready out id repo files plan w
    → out.persisted ≡ true
    → (after : World) × (tree : List (Path_ × ℕ)) × (push_inner out id revision files w
        ≡ (pushed (length files) (bytes_of w.disk plan), after))
      × (lookup repo.slug after.disk.sources ≡ some tree)
      × All (λ file. lookup file.rel tree ≡ some (blob_of w.disk file)) plan
      × ((name : Text)
          → (repo.slug == name) ≡ false
          → (staging_name repo.slug == name) ≡ false
          → lookup name after.disk.sources ≡ lookup name w.disk.sources)
      × (after.disk.blobs ≡ w.disk.blobs)
      × (after.disk.contents ≡ w.disk.contents)
      × ((now : ℕ) (digest : Text) → get now (repo.id, digest) after.cache ≡ none)
unfolding commit
push_publishes out id repo revision files plan w r p =
    let (tree, made, found) =
      materialize_links plan repo.slug w.disk r.proper r.distinct r.stored in
    (
      after tree,
      tree,
      push_inner-Ready out id repo revision files plan w r
          ∙ ap (λ m. commit out id repo revision (length files) m w) made
          ∙ written tree,
      lookup-insert repo.slug repo.slug tree (others repo.slug w.disk)
          ∙ rw (eq_refl repo.slug) refl,
      found,
      λ name h k. lookup-others repo.slug name tree w.disk h k,
      refl,
      refl,
      λ now digest. invalidated repo.id digest now w.cache,
    )
  where
    after : List (Path_ × ℕ) → World
    after tree = record {
      disk = record w.disk {
        staging = [];
        sources = insert repo.slug tree (others repo.slug w.disk);
      };
      registry =
          record_push id (record_of out revision (length files) (bytes_of w.disk plan)) w.registry;
      cache = invalidate_repo repo.id w.cache;
    }

    written :
        (tree : List (Path_ × ℕ))
        → commit out id repo revision
            (length files)
            (
              some (bytes_of w.disk plan),
              record w.disk {
                staging = [];
                sources = insert repo.slug tree (others repo.slug w.disk);
              },
            )
            w
          ≡ (pushed (length files) (bytes_of w.disk plan), after tree)
    written tree = rw (p, commit) refl
