-- ===== src/Gateway/Tests/PushRuns.antt =====
-- Runs of the push side of apps/gateway/src/main.rs.
use cce.Prelude.{
  ℕ, ◌≡◌, refl, true, false, not, ◌&&◌, none, some, List, [], ◌∷◌, ◌++◌, Text, txt, text_eq, nat_eq,
  ◌==◌, All, arith, map,
}
use cce.Prelude.Strings.{list_beq}
use cce.Prelude.Lists.{any, keep}
use cce.Prelude.Map.{lookup, insert, remove, retain}
use cce.Prelude.Sort.{sort_by, text_leb, dedup}
use cce.Prelude.Split.{split_on}
use cce.Prelude.Trim.{starts_with}
use cce.Prelude.Bytes.{split_at_checked}
use cce.Prelude.Chunks.{batches, concat}
use cce.Prelude.Components.{components, components_of}
use cce.Gateway.Cache
use cce.Gateway.Cache.{SearchCache, key_eq, get, put, invalidate_repo}
use cce.Gateway.Registry.{RepoEntry, require_repo, find_by}
use cce.Gateway.Registry.Paths.{safe_relpath, blob_path, names}
use cce.Gateway.Ingest.{
  Disk, StagedFile, Path_, path_eq, plan_entry, plan_of, read, exists, bad_digest, put_blob,
  missing_in, missing_blobs, is_prefix, obstructs, link_or_copy, size_at, stage, stage_all, swap,
  materialize,
}
use cce.Gateway.Ingest.Tree.{bytes_of, blob_of}
use cce.Gateway.Ingest.Missing.{missing_blobs_lem}
use cce.Gateway.Push
use cce.Gateway.Push.{
  World, Outside, PushResult, pushed, missing, internal, record_push, commit, push_to, push_inner,
}
use cce.Gateway.Push.Published.{Ready, push_publishes}
use cce.Gateway.Push.Refused.{unpersisted_push_keeps_cache}

program : Unit {0}
unfolding list_beq any keep lookup insert remove retain sort_by text_leb dedup split_on starts_with
    split_at_checked batches concat components components_of get put invalidate_repo require_repo
    find_by safe_relpath blob_path names plan_entry plan_of read put_blob missing_in missing_blobs
    is_prefix obstructs link_or_copy size_at stage stage_all swap materialize record_push commit
    push_to push_inner Cache.new
program = tt

abbrev sixteen : Text
sixteen = txt "0123456789abcdef"

abbrev digest_a : Text
digest_a = sixteen ++ sixteen ++ sixteen ++ sixteen

abbrev digest_b : Text
digest_b = sixteen ++ sixteen ++ sixteen ++ txt "fedcba9876543210"

-- Two blobs of three bytes and of one.
abbrev disk : Disk
disk = record {
  contents = (0, 1 ∷ 2 ∷ 3 ∷ []) ∷ (1, 9 ∷ []) ∷ [];
  blobs = (digest_a, 0) ∷ (digest_b, 1) ∷ [];
  staging = [];
  sources = [];
  next_inode = 2;
}

abbrev repo : RepoEntry
repo = record {
  id = txt "repo_1";
  name = txt "App";
  slug = txt "app";
  worker_url = txt "http://w";
  created_at = txt "t";
  last_push = none;
}

abbrev world : World
unfolding program
world = record {
  disk = disk;
  registry = (txt "repo_1", repo) ∷ [];
  cache = put 0 (txt "repo_1", txt "q") (txt "stale") none (Cache.new 100 8);
}

abbrev out : Outside
out = record {
  links = true;
  persisted = true;
  push_id = txt "push_1";
  now = txt "t";
  values = map (λ e. e.1);
}

abbrev files : List (Text × Text)
files = (txt "src/a", digest_a) ∷ (txt "b", digest_b) ∷ []

abbrev plan : List StagedFile
plan =
    record { rel = txt "src" ∷ txt "a" ∷ []; digest = digest_a }
    ∷ record { rel = txt "b" ∷ []; digest = digest_b }
    ∷ []

wrong_digest : (put_blob (λ bytes. txt "d") (txt "e") [] disk).0 ≡ bad_digest
unfolding program
wrong_digest = refl

cached_before : get 5 (txt "repo_1", txt "q") world.cache ≡ some (txt "stale", none)
unfolding program world
cached_before = refl

check_run :
    Push.check_blobs
      (map (λ e. e.1))
      (txt "App")
      ((txt "c", sixteen ++ sixteen ++ sixteen ++ txt "0000000000000000") ∷ files)
      world
    ≡ missing ((sixteen ++ sixteen ++ sixteen ++ txt "0000000000000000") ∷ [])
unfolding program world Push.check_blobs
check_run = refl

bad_digest_run :
    (push_inner out (txt "app") none ((txt "c", sixteen ++ digest_a) ∷ files) world).0
    ≡ Push.bad_request
unfolding program world
bad_digest_run = refl

through_a_file :
    (push_inner out (txt "app") none ((txt "b/c", digest_a) ∷ files) world).0 ≡ internal
unfolding program world
through_a_file = refl

-- A push that names the repository by its slug is not recorded as its last push.
slug_is_not_recorded :
    map (λ e. e.1.last_push) (push_inner out (txt "app") none files world).1.registry ≡ none ∷ []
unfolding program world
slug_is_not_recorded = refl

ready : Ready out (txt "app") repo files plan world
unfolding program world
ready = record {
  links = refl;
  registered = refl;
  proper = (refl, refl);
  few = omega arith;
  valid = refl;
  distinct = (((refl, refl), tt), (tt, tt));
  stored = (refl, (refl, tt));
}

pushed_run : (push_inner out (txt "app") none files world).0 ≡ pushed 2 4
unfolding program world
pushed_run = refl

push_publishes_example :
    (after : World) × (tree : List (Path_ × ℕ)) × (push_inner out (txt "app") none files world
      ≡ (pushed 2 (bytes_of disk plan), after))
    × (lookup (txt "app") after.disk.sources ≡ some tree)
    × All (λ file. lookup file.rel tree ≡ some (blob_of disk file)) plan
    × ((name : Text)
        → (txt "app" == name) ≡ false
        → (txt ".app" == name) ≡ false
        → lookup name after.disk.sources ≡ lookup name [])
    × (after.disk.blobs ≡ disk.blobs)
    × (after.disk.contents ≡ disk.contents)
    × ((now : ℕ) (digest : Text) → get now (txt "repo_1", digest) after.cache ≡ none)
unfolding world
push_publishes_example = push_publishes out (txt "app") repo none files plan world ready refl

abbrev unwritten : Outside
unwritten = record out { persisted = false }

Ready-unwritten : Ready unwritten (txt "app") repo files plan world
unfolding program world
Ready-unwritten = record {
  links = refl;
  registered = refl;
  proper = (refl, refl);
  few = omega arith;
  valid = refl;
  distinct = (((refl, refl), tt), (tt, tt));
  stored = (refl, (refl, tt));
}

unpersisted_push_keeps_cache_example :
    (after : World) × (tree : List (Path_ × ℕ)) × (push_inner unwritten (txt "app") none files world
      ≡ (internal, after))
    × (lookup (txt "app") after.disk.sources ≡ some tree)
    × All (λ file. lookup file.rel tree ≡ some (blob_of world.disk file)) plan
    × (after.cache ≡ world.cache)
unpersisted_push_keeps_cache_example =
    unpersisted_push_keeps_cache unwritten (txt "app") repo none files plan world Ready-unwritten
      refl

missing_blobs_lem_example :
    any (λ m. m == digest_a) (missing_blobs disk plan)
    ≡ any (λ file. file.digest == digest_a && not (exists disk file.digest)) plan
missing_blobs_lem_example = missing_blobs_lem disk plan digest_a

abbrev twice : StagedFile
twice = record { rel = txt "b" ∷ []; digest = digest_b }

-- A push of a repository whose slug is `..` or `.` fails, and deletes all blobs.
dots_run :
    ((materialize true plan (txt "..") disk).0 ≡ none)
    × ((materialize true plan (txt "..") disk).1.blobs ≡ [])
    × ((materialize true plan (txt ".") disk).0 ≡ none)
    × ((materialize true plan (txt ".") disk).1.blobs ≡ [])
unfolding program
dots_run = (refl, refl, refl, refl)
