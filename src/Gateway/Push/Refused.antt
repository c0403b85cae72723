-- ===== src/Gateway/Push/Refused.antt =====
-- A push of apps/gateway/src/main.rs whose registry cannot be written.
use cce.Prelude.{
  ℕ, ◌≡◌, refl, ap, ◌∙◌, false, Option, some, List, [], Text, text_eq, eq_refl, length, All,
}
use cce.Prelude.Map.{lookup, insert, lookup-insert}
use cce.Gateway.Registry.{RepoEntry}
use cce.Gateway.Ingest.{StagedFile, Path_, path_eq}
use cce.Gateway.Ingest.Tree.{blob_of, bytes_of}
use cce.Gateway.Ingest.Materialized.{others, materialize_links}
use cce.Gateway.Push.{World, Outside, internal, record_push, record_of, commit, push_inner}
use cce.Gateway.Push.Published.{Ready, push_inner-Ready}

-- A push of a registered repository whose slug is neither `.` nor `..`, with a manifest of at most
-- 500,000 files with valid paths and digests, none of whose paths leads through another, whose blobs
-- are all stored, on one file system, but whose registry is not written, answers with an internal
-- error; the source directory of the repository has the files of the manifest all the same, and the cache still
-- replays what it did before.
pub unpersisted_push_keeps_cache :
    (out : Outside) (id : Text) (repo : RepoEntry) (revision : Option Text)
    (files : List (Text × Text)) (plan : List StagedFile) (w : World)
    → Ready out id repo files plan w
    → out.persisted ≡ false
    → (after : World) × (tree : List (Path_ × ℕ)) × (push_inner out id revision files w
        ≡ (internal, after))
      × (lookup repo.slug after.disk.sources ≡ some tree)
      × All (λ file. lookup file.rel tree ≡ some (blob_of w.disk file)) plan
      × (after.cache ≡ w.cache)
unfolding commit
unpersisted_push_keeps_cache out id repo revision files plan w r p =
    let (tree, made, found) =
      materialize_links plan repo.slug w.disk r.proper r.distinct r.stored in
    (
      after tree,
      tree,
      push_inner-Ready out id repo revision files plan w r
          ∙ ap (λ m. commit out id repo revision (length files) m w) made
          ∙ rw (p, commit) refl,
      lookup-insert repo.slug repo.slug tree (others repo.slug w.disk)
          ∙ rw (eq_refl repo.slug) refl,
      found,
      refl,
    )
  where
    after : List (Path_ × ℕ) → World
    after tree = record w {
      disk = record w.disk {
        staging = [];
        sources = insert repo.slug tree (others repo.slug w.disk);
      };
      registry =
          record_push id (record_of out revision (length files) (bytes_of w.disk plan)) w.registry;
    }
