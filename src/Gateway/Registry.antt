-- ===== src/Gateway/Registry.antt =====
-- The repository registry of apps/gateway/src/main.rs: a map from ids to entries behind one mutex.
-- The hash of a name, the clock and the outcome of file-system calls are arguments.
pub mod Slug
pub mod Lookups
pub mod Runs
pub mod Paths
use cce.Prelude.{
  ℕ, Bool, true, false, ◌||◌, not, Option, none, some, List, [], ◌∷◌, ◌++◌, Text, txt, text_eq,
  ◌==◌, ltb, if◌then◌else◌,
}
use cce.Prelude.Map.{lookup, insert}
use cce.Prelude.Trim.{is_empty, starts_with, trim_end}
use cce.Prelude.Utf8.{byte_len}
use Slug.{slugify}

pub record PushRecord : Type 0 where
  pub push_id : Text
  pub at : Text
  pub revision : Option Text
  pub file_count : ℕ
  pub bytes : ℕ

pub record RepoEntry : Type 0 where
  pub id : Text
  pub name : Text
  pub slug : Text
  pub worker_url : Text
  pub created_at : Text
  pub last_push : Option PushRecord

abbrev pub Registry : Type 0
Registry = List (Text × RepoEntry)

-- A response: an entry, or an error with its status.
pub data Response : Type 0 where
  ok : RepoEntry → Response
  bad_request not_found internal : Response

abbrev pub respond_to : Bool → RepoEntry → Response
respond_to true entry = ok entry
respond_to false entry = internal

unfoldable pub is_http : Text → Bool
is_http url = starts_with (txt "http://") url || starts_with (txt "https://") url

-- `values_mut().find(…)`, then the new worker URL: the entry as it is afterwards, and the registry.
-- At most one entry has the name or its id, so that the order plays no part.
unfoldable pub update_worker : (RepoEntry → Bool) → Text → Registry → Option (RepoEntry × Registry)
update_worker p url [] = none
update_worker p url ((k, entry) ∷ m) =
    let entry' = record entry { worker_url = url } in
    let rest = update_worker p url m in
    if p entry
    then some (entry', (k, entry') ∷ m)
    else elim rest [ none ↦ none | some (found, m') ↦ some (found, (k, entry) ∷ m') ]

-- What `values()` gives: the entries in an order that the `HashMap` chooses at each call.
abbrev pub Values : Type 0
Values = Registry → List RepoEntry

-- `values().find(…)`.
unfoldable pub find_by : (RepoEntry → Bool) → List RepoEntry → Option RepoEntry
find_by p [] = none
find_by p (entry ∷ entries) = let rest = find_by p entries in if p entry then some entry else rest

-- `hash16` gives the first 16 hexadecimal digits of a name's BLAKE3 hash.
module _ (hash16 : Text → Text) where
  abbrev pub id_of : Text → Text
  id_of name = txt "repo_" ++ hash16 name

  -- `entry.name == input.name || entry.id == id`.
  abbrev pub is_same : Text → RepoEntry → Bool
  is_same name entry = entry.name == name || entry.id == id_of name

  abbrev pub fresh_entry : Text → Text → Text → RepoEntry
  fresh_entry name url created_at = record {
    id = id_of name;
    name = name;
    slug = slugify name;
    worker_url = url;
    created_at = created_at;
    last_push = none;
  }

  -- With whether the source directory could be made, and the registry could be written.
  unfoldable pub register_repo : Bool → Bool → Text → Text → Text → Registry → Response × Registry
  register_repo dir_made persisted now name url m =
      let worker_url = trim_end b'/' url in
      let updated = update_worker (is_same name) worker_url m in
      let entry = fresh_entry name worker_url now in
      if is_empty name || ltb 200 (byte_len name)
      then (bad_request, m)
      else (if not (is_http worker_url) then (bad_request, m) else elim updated [
        | some (existing, m') ↦ (respond_to persisted existing, m')
        | none ↦
            if dir_made
            then (respond_to persisted entry, insert entry.id entry m)
            else (internal, m)
      ])

  unfoldable pub ensure_repo :
      Values → Option Text → Bool → Bool → Text → Text → Registry → Response × Registry
  ensure_repo values default_worker dir_made persisted now name m =
      if is_empty name
      then (bad_request, m)
      else elim (find_by (λ entry. entry.name == name) (values m)) [
        | some entry ↦ (ok entry, m)
        | none ↦ elim default_worker [
          | none ↦ (not_found, m)
          | some url ↦ register_repo dir_made persisted now name url m
        ]
      ]

unfoldable pub require_repo : Values → Text → Registry → Response
require_repo values id m = elim (lookup id m) [
  | some entry ↦ ok entry
  | none ↦ elim (find_by (λ entry. entry.slug == id || entry.name == id) (values m)) [
    | some entry ↦ ok entry
    | none ↦ not_found
  ]
]
