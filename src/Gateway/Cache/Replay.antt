-- ===== src/Gateway/Cache/Replay.antt =====
-- The cache against an ideal one, which never drops an entry for want of room.
use cce.Prelude.{
  ℕ, ◌≡◌, true, false, not, Option, none, some, List, [], ◌∷◌, text_eq, arith, ◌==◌, if◌then◌else◌,
  ◌⊎◌, inl, inr, refl, Bool, leb, length, eq_refl, Option-cases, ◌∙◌, ℕ, pair_eq,
}
use cce.Prelude.Map.{lookup, Every, Every-lookup, Every-retain, Every-insert, retain}
use cce.Gateway.Cache.{
  Cached, Key, key_eq, SearchCache, new, get, replay, make_room, put, invalidate_repo, Event, store,
  pushed, begin, finish, finish_flight, begin_flight, call, run, is_fresh,
}

-- The response that was stored last for each key and not invalidated since.
abbrev pub Ideal : Type 0
Ideal = Key → Option Cached

unfoldable pub ideal_call : Event → Ideal → Ideal
ideal_call (store now key body content_type) s k =
    if key == k
    then some (record { body = body; content_type = content_type; inserted = now })
    else s k
ideal_call (pushed repo_id) s k = if k.0 == repo_id then none else s k
ideal_call (begin _) s k = s k
ideal_call (finish _) s k = s k

unfoldable pub ideal_run : List Event → Ideal → Ideal
ideal_run [] s = s
ideal_run (ev ∷ evs) s = ideal_run evs (ideal_call ev s)

abbrev Agrees : Ideal → List (Key × Cached) → Type 0
Agrees s entries = Every (λ k v. s k ≡ some v) entries

Agrees-if :
    (s : Ideal) (b : Bool) (m n : List (Key × Cached))
    → Agrees s m
    → Agrees s n
    → Agrees s (if b then m else n)
Agrees-if s true m n x y = x
Agrees-if s false m n x y = y

pub entries-begin_flight :
    (key : Key) (c : SearchCache) → (begin_flight key c).1.entries ≡ c.entries
unfolding begin_flight
entries-begin_flight key c = ground arith

Agrees-make_room :
    (now : ℕ) (s : Ideal) (c : SearchCache) → Agrees s c.entries → Agrees s (make_room now c)
unfolding make_room
Agrees-make_room now s c h =
    Agrees-if s (leb c.max_entries (length c.entries)) _ c.entries
      (Agrees-if s (leb c.max_entries (length swept)) [] swept tt (
        Every-retain (λ k v. s k ≡ some v) (λ k v. s k ≡ some v) (λ _. is_fresh c.ttl now) c.entries
          (λ k v _ e. e) h))
      h
  where
    swept : List (Key × Cached)
    swept = retain (λ _. is_fresh c.ttl now) c.entries

call_keeps_ttl : (ev : Event) (c : SearchCache) → (call ev c).ttl ≡ c.ttl
unfolding call put invalidate_repo finish_flight begin_flight
call_keeps_ttl (store now key body ct) c = refl
call_keeps_ttl (pushed repo_id) c = refl
call_keeps_ttl (begin key) c = ground arith
call_keeps_ttl (finish key) c = refl

Agrees-call :
    (ev : Event) (s : Ideal) (c : SearchCache)
    → Agrees s c.entries
    → Agrees (ideal_call ev s) (call ev c).entries
unfolding call ideal_call put invalidate_repo finish_flight
Agrees-call (store now key body ct) s c h =
    Every-insert (λ k v. s k ≡ some v) (λ k v. ideal_call (store now key body ct) s k ≡ some v) key
      (record { body = body; content_type = ct; inserted = now }) (make_room now c)
      (λ j w ne e. rw ne e) (rw (eq_refl key)) (Agrees-make_room now s c h)
Agrees-call (pushed repo_id) s c h =
    Every-retain (λ k v. s k ≡ some v) (λ k v. ideal_call (pushed repo_id) s k ≡ some v)
      (λ k _. not (k.0 == repo_id)) c.entries (λ k v n e. ground arith) h
Agrees-call (begin key) s c h = rw entries-begin_flight h
Agrees-call (finish key) s c h = h

Agrees-run :
    (evs : List Event) (s : Ideal) (c : SearchCache)
    → Agrees s c.entries
    → Agrees (ideal_run evs s) (run evs c).entries
unfolding run ideal_run
Agrees-run [] s c h = h
Agrees-run (ev ∷ evs) s c h = Agrees-run evs (ideal_call ev s) (call ev c) (Agrees-call ev s c h)

pub run_keeps_ttl : (evs : List Event) (c : SearchCache) → (run evs c).ttl ≡ c.ttl
unfolding run
run_keeps_ttl [] c = refl
run_keeps_ttl (ev ∷ evs) c = run_keeps_ttl evs (call ev c) ∙ call_keeps_ttl ev c

-- Whatever calls are made on a new cache, `get` answers nothing, or what an ideal cache answers:
-- the response stored last for exactly this repository and digest, if no push to the repository
-- came after it and it is not older than the time to live.
pub get_sound :
    (ttl max_entries now : ℕ) (key : Key) (evs : List Event)
    → (get now key (run evs (new ttl max_entries)) ≡ none)
      ⊎ (get now key (run evs (new ttl max_entries))
          ≡ replay ttl now (ideal_run evs (λ _. none) key))
unfolding get new
get_sound ttl max_entries now key evs =
    let c = run evs (new ttl max_entries) in
    let agrees = Agrees-run evs (λ _. none) (new ttl max_entries) tt in
    let same = run_keeps_ttl evs (new ttl max_entries) in
    elim (Option-cases (lookup key c.entries)) [
      | inl missing ↦ inl (rw missing)
      | inr (v, stored) ↦ inr (
          rw (
            stored,
            same,
            Every-lookup (λ k v. ideal_run evs (λ _. none) k ≡ some v) key v c.entries agrees
                stored,
          ))
    ]
