-- ===== src/Gateway/Registry/Lookups.antt =====
-- What a registration changes, and what a lookup finds.
use cce.Prelude.{
  ◌≡◌, refl, ◌⊎◌, ◌||◌, ltb, Bool, true, false, none, some, [], ◌∷◌, Text, text_eq, ◌==◌,
  if◌then◌else◌, arith, eq_iff, Bool-cases, inl, inr,
}
use cce.Prelude.Map.{lookup, insert, Every, Every-insert, lookup-insert}
use cce.Prelude.Trim.{trim_end, is_empty}
use cce.Prelude.Utf8.{byte_len}
use cce.Gateway.Registry.{
  RepoEntry, Registry, Response, bad_request, internal, respond_to, is_http, update_worker, id_of,
  is_same, fresh_entry, register_repo,
}
use cce.Gateway.Registry.Slug.{slugify}

module _ (hash16 : Text → Text) where
  -- An entry stands under its id, the id and the slug are those of its name, and its worker's URL
  -- is an HTTP URL.
  pub record IsEntry (k : Text) (entry : RepoEntry) : Type 0 where
    pub key : entry.id ≡ k
    pub named : entry.id ≡ id_of hash16 entry.name
    pub slugged : entry.slug ≡ slugify entry.name
    pub http : is_http entry.worker_url ≡ true

  abbrev pub IsRegistry : Registry → Type 0
  IsRegistry m = Every IsEntry m

  same_id :
      (name k : Text) (entry : RepoEntry)
      → IsEntry k entry
      → is_same hash16 name entry ≡ (k == id_of hash16 name)
  same_id name k entry h = ground (
    arith,
    h.key,
    h.named,
    eq_iff entry.name name,
    eq_iff k (id_of hash16 name),
    eq_iff entry.id (id_of hash16 name),
  )

  -- The entry stands under the id of the name, with this worker, and no other key has changed.
  pub record Updated (name to : Text) (m : Registry) (entry : RepoEntry) (m' : Registry)
      : Type 0 where
    pub id : entry.id ≡ id_of hash16 name
    pub worker : entry.worker_url ≡ to
    pub valid : IsRegistry m'
    pub at : (j : Text) → lookup j m' ≡ (if id_of hash16 name == j then some entry else lookup j m)

  Updated-here :
      (name url k : Text) (e : RepoEntry) (m : Registry)
      → IsEntry k e
      → IsRegistry m
      → is_http url ≡ true
      → (k == id_of hash16 name) ≡ true
      → Updated name url
          ((k, e) ∷ m)
          (record e { worker_url = url })
          ((k, record e { worker_url = url }) ∷ m)
  unfolding lookup
  Updated-here name url k e m h hs u s = record {
    id = ground (arith, h.key, eq_iff k (id_of hash16 name));
    worker = refl;
    valid = (record { key = h.key; named = h.named; slugged = h.slugged; http = u }, hs);
    at =
        λ j. ground (arith, eq_iff k (id_of hash16 name), eq_iff k j, eq_iff (id_of hash16 name) j);
  }

  Updated-later :
      (name url k : Text) (e entry : RepoEntry) (m m' : Registry)
      → IsEntry k e
      → (k == id_of hash16 name) ≡ false
      → Updated name url m entry m'
      → Updated name url ((k, e) ∷ m) entry ((k, e) ∷ m')
  unfolding lookup
  Updated-later name url k e entry m m' h n r = record {
    id = r.id;
    worker = r.worker;
    valid = (h, r.valid);
    at = λ j.
        ground
          (arith, r.at j, eq_iff k (id_of hash16 name), eq_iff k j, eq_iff (id_of hash16 name) j);
  }

  update_worker_found :
      (name url : Text) (m : Registry)
      → IsRegistry m
      → is_http url ≡ true
      → (update_worker (is_same hash16 name) url m ≡ none)
        ⊎ ((entry : RepoEntry) × (m' : Registry) × (update_worker (is_same hash16 name) url m
              ≡ some (entry, m'))
            × Updated name url m entry m')
  unfolding update_worker
  update_worker_found name url [] h u = inl refl
  update_worker_found name url ((k, e) ∷ m) (h, hs) u = elim (Bool-cases (k == id_of hash16 name)) [
    | inl here ↦ inr (
      record e { worker_url = url },
      (k, record e { worker_url = url }) ∷ m,
      rw (same_id name k e h, here) refl,
      Updated-here name url k e m h hs u here,
    )
    | inr later ↦ elim (update_worker_found name url m hs u) [
      | inl missing ↦ inl (rw (same_id name k e h, later, missing) refl)
      | inr (entry, m', found, r) ↦ inr (
        entry,
        (k, e) ∷ m',
        rw (same_id name k e h, later, found) refl,
        Updated-later name url k e entry m m' h later r,
      )
    ]
  ]

  Updated-fresh :
      (name url now : Text) (m : Registry)
      → IsRegistry m
      → is_http url ≡ true
      → Updated name url m
          (fresh_entry hash16 name url now)
          (insert (id_of hash16 name) (fresh_entry hash16 name url now) m)
  Updated-fresh name url now m h u = record {
    id = refl;
    worker = refl;
    valid =
        Every-insert IsEntry IsEntry (id_of hash16 name) (fresh_entry hash16 name url now) m
          (λ _ _ _ e. e) (record { key = refl; named = refl; slugged = refl; http = u }) h;
    at = λ j. lookup-insert (id_of hash16 name) j (fresh_entry hash16 name url now) m;
  }

  -- An error that leaves the registry as it is.
  abbrev pub Refused : Registry → Response × Registry → Type 0
  Refused m r = ((r.0 ≡ bad_request) ⊎ (r.0 ≡ internal)) × (r.1 ≡ m)

  -- An entry that stands in the registry, and is answered unless writing the registry failed.
  abbrev pub Registered : Bool → Text → Text → Registry → Response × Registry → Type 0
  Registered persisted name to m r =
      (entry : RepoEntry) × (r.0 ≡ respond_to persisted entry) × Updated name to m entry r.1

  -- However a registration goes: it is refused and changes nothing, or the entry of the name stands
  -- under the name's id with the given worker (trailing slashes dropped), every other key is as it
  -- was, and the registry is still well formed: each entry stands under its own id, with the slug
  -- of its name and an HTTP worker. The entry is then the answer, unless the registry could not be
  -- written.
  pub register_repo_outcome :
      (dir_made persisted : Bool) (now name url : Text) (m : Registry)
      → IsRegistry m
      → let r = register_repo hash16 dir_made persisted now name url m in
        Refused m r ⊎ Registered persisted name (trim_end b'/' url) m r
  unfolding register_repo
  register_repo_outcome dir_made persisted now name url m h =
      let worker_url = trim_end b'/' url in
      elim (Bool-cases (is_empty name || ltb 200 (byte_len name))) [
        | inl bad ↦ inl (rw bad (inl refl, refl))
        | inr sized ↦ elim (Bool-cases (is_http worker_url)) [
          | inr other ↦ inl (rw (sized, other) (inl refl, refl))
          | inl http ↦ elim (update_worker_found name worker_url m h http) [
            | inr (entry, m', found, r) ↦ inr (rw (sized, http, found) (entry, refl, r))
            | inl missing ↦ elim (Bool-cases dir_made) [
              | inl made ↦ inr (
                  rw (sized, http, missing, made)
                    (
                      fresh_entry hash16 name worker_url now,
                      refl,
                      Updated-fresh name worker_url now m h http,
                    ))
              | inr failed ↦ inl (rw (sized, http, missing, failed) (inr refl, refl))
            ]
          ]
        ]
      ]
