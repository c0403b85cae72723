-- ===== src/Gateway/Registry/Runs.antt =====
-- Registrations one after the other, from an empty registry.
use cce.Prelude.{
  ◌≡◌, refl, Bool, Option, some, List, [], ◌∷◌, Text, text_eq, ◌==◌, arith, subst, sym, eq_refl,
  Bool-cases, Option-cases, inl, inr,
}
use cce.Prelude.Map.{lookup}
use cce.Prelude.Trim.{is_empty, trim_end}
use cce.Gateway.Registry.{
  Values, RepoEntry, Registry, Response, ok, find_by, id_of, register_repo, ensure_repo,
  require_repo,
}
use cce.Gateway.Registry.Lookups.{IsRegistry, register_repo_outcome}

-- A call of a handler, with what the clock and the file system answer.
pub data Call : Type 0 where
  register : Bool → Bool → Text → Text → Text → Call
  ensure : Values → Option Text → Bool → Bool → Text → Text → Call

module _ (hash16 : Text → Text) where
  unfoldable pub handle : Call → Registry → Response × Registry
  handle (register dir_made persisted now name url) m =
      register_repo hash16 dir_made persisted now name url m
  handle (ensure values default_worker dir_made persisted now name) m =
      ensure_repo hash16 values default_worker dir_made persisted now name m

  unfoldable pub run : List Call → Registry → Registry
  run [] m = m
  run (c ∷ cs) m = run cs (handle c m).1

  register-IsRegistry :
      (dir_made persisted : Bool) (now name url : Text) (m : Registry)
      → IsRegistry hash16 m
      → IsRegistry hash16 (register_repo hash16 dir_made persisted now name url m).1
  register-IsRegistry dir_made persisted now name url m h =
      elim (register_repo_outcome hash16 dir_made persisted now name url m h) [
        | inl (_, same) ↦ subst (IsRegistry hash16) (sym same) h
        | inr (_, _, r) ↦ r.valid
      ]

  ensure-IsRegistry :
      (values : Values) (default_worker : Option Text) (dir_made persisted : Bool) (now name : Text)
      (m : Registry)
      → IsRegistry hash16 m
      → IsRegistry hash16 (ensure_repo hash16 values default_worker dir_made persisted now name m).1
  unfolding ensure_repo
  ensure-IsRegistry values default_worker dir_made persisted now name m h =
      elim (Bool-cases (is_empty name)) [
        | inl bad ↦ rw bad h
        | inr named ↦ elim (Option-cases (find_by (λ entry. entry.name == name) (values m))) [
          | inr (entry, found) ↦ rw (named, found) h
          | inl missing ↦ elim (Option-cases default_worker) [
            | inl without ↦ rw (named, missing, without) h
            | inr (url, worker) ↦
                rw (named, missing, worker)
                  (register-IsRegistry dir_made persisted now name url m h)
          ]
        ]
      ]

  run_valid : (cs : List Call) (m : Registry) → IsRegistry hash16 m → IsRegistry hash16 (run cs m)
  unfolding run handle
  run_valid [] m h = h
  run_valid (register dir_made persisted now name url ∷ cs) m h =
      run_valid cs (register_repo hash16 dir_made persisted now name url m).1
        (register-IsRegistry dir_made persisted now name url m h)
  run_valid (ensure values default_worker dir_made persisted now name ∷ cs) m h =
      run_valid cs (ensure_repo hash16 values default_worker dir_made persisted now name m).1
        (ensure-IsRegistry values default_worker dir_made persisted now name m h)

  require_found :
      (values : Values) (id : Text) (entry : RepoEntry) (m : Registry)
      → lookup id m ≡ some entry
      → require_repo values id m ≡ ok entry
  unfolding require_repo
  require_found values id entry m h = rw (h, require_repo) refl

  -- After any registrations from an empty registry: if a further one answers with an entry, then
  -- the lookup by the name's id finds exactly this entry, whose worker is the given URL without its
  -- trailing slashes.
  pub registered_is_found :
      (cs : List Call) (values : Values) (dir_made persisted : Bool) (now name url : Text)
      (entry : RepoEntry)
      → let r = register_repo hash16 dir_made persisted now name url (run cs []) in
        r.0 ≡ ok entry
        → (require_repo values (id_of hash16 name) r.1 ≡ ok entry)
          × (entry.worker_url ≡ trim_end b'/' url)
  registered_is_found cs values dir_made persisted now name url entry h =
      let m = run cs [] in
      let r = register_repo hash16 dir_made persisted now name url m in
      elim (register_repo_outcome hash16 dir_made persisted now name url m (run_valid cs [] tt)) [
        | inl (inl bad, _) ↦ absurd (cc)
        | inl (inr bad, _) ↦ absurd (cc)
        | inr (e, answer, u) ↦ elim (Bool-cases persisted) [
          | inr lost ↦ absurd (cc)
          | inl kept ↦
              let same : e ≡ entry = ground (arith, answer, kept, h) in
              (
                require_found values (id_of hash16 name) entry r.1
                    (rw (u.at (id_of hash16 name), eq_refl (id_of hash16 name), same) refl),
                rw (← same) u.worker,
              )
        ]
      ]
