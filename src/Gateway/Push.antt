-- ===== src/Gateway/Push.antt =====
-- `check_blobs` and `push_inner` of apps/gateway/src/main.rs: a push over the files, the registry
-- and the search cache. Whether the registry could be written, the id and the time of the push are
-- arguments; the kick of the worker is left out.
pub mod Published
pub mod Refused
use cce.Prelude.{
  ℕ, Bool, true, false, Option, none, some, List, [], ◌∷◌, Text, text_eq, ◌==◌, ltb, if◌then◌else◌,
  length, not,
}
use cce.Prelude.Trim.{is_empty}
use cce.Gateway.Cache.{SearchCache, invalidate_repo}
use cce.Gateway.Registry
use cce.Gateway.Registry.{Registry, Values, RepoEntry, PushRecord, require_repo}
use cce.Gateway.Ingest.{Disk, StagedFile, plan_of, missing_blobs, materialize}

pub record World : Type 0 where
  pub disk : Disk
  pub registry : Registry
  pub cache : SearchCache

pub data PushResult : Type 0 where
  pushed : ℕ → ℕ → PushResult  -- the files and their bytes
  missing : List Text → PushResult
  bad_request not_found internal : PushResult

-- What a push is given from outside.
pub record Outside : Type 0 where
  pub links : Bool
  pub persisted : Bool
  pub push_id : Text
  pub now : Text
  pub values : Values  -- the order of the registry

-- `registry.get_mut(id)` and the new last push.
unfoldable pub record_push : Text → PushRecord → Registry → Registry
record_push id push [] = []
record_push id push ((key, entry) ∷ m) =
    let rest = record_push id push m in
    if key == id then (key, record entry { last_push = some push }) ∷ m else (key, entry) ∷ rest

abbrev pub record_of : Outside → Option Text → ℕ → ℕ → PushRecord
record_of out revision files bytes = record {
  push_id = out.push_id;
  at = out.now;
  revision = revision;
  file_count = files;
  bytes = bytes;
}

-- What follows the swap: the registry, and then, if it could be written, the cache.
unfoldable pub commit :
    Outside → Text → RepoEntry → Option Text → ℕ → Option ℕ × Disk → World → PushResult × World
commit out id repo revision files (none, d) w = (internal, record w { disk = d })
commit out id repo revision files (some bytes, d) w =
    let push : PushRecord = record_of out revision files bytes in
    let w' : World = record w { disk = d; registry = record_push id push w.registry } in
    if out.persisted
    then (pushed files bytes, record w' { cache = invalidate_repo repo.id w.cache })
    else (internal, w')

unfoldable pub push_to :
    Outside → Text → RepoEntry → Option Text → List (Text × Text) → World → PushResult × World
push_to out id repo revision files w =
    if ltb 500000 (length files) then (bad_request, w) else elim (plan_of files) [
      | none ↦ (bad_request, w)
      | some plan ↦
          let absent = missing_blobs w.disk plan in
          if not (is_empty absent)
          then (missing absent, w)
          else commit out id repo revision (length files)
              (materialize out.links plan repo.slug w.disk) w
    ]

-- The digests that the store does not have yet.
unfoldable pub check_blobs : Values → Text → List (Text × Text) → World → PushResult
check_blobs values id files w = elim (require_repo values id w.registry) [
  | Registry.ok repo ↦ elim (plan_of files) [
    | none ↦ bad_request
    | some plan ↦ missing (missing_blobs w.disk plan)
  ]
  | Registry.bad_request ↦ not_found
  | Registry.not_found ↦ not_found
  | Registry.internal ↦ not_found
]

-- The repository is found by its id, its slug or its name.
unfoldable pub push_inner :
    Outside → Text → Option Text → List (Text × Text) → World → PushResult × World
push_inner out id revision files w = elim (require_repo out.values id w.registry) [
  | Registry.ok repo ↦ push_to out id repo revision files w
  | Registry.bad_request ↦ (not_found, w)
  | Registry.not_found ↦ (not_found, w)
  | Registry.internal ↦ (not_found, w)
]
