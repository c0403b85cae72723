-- ===== src/Gateway/Cache/Bounds.antt =====
-- The cache does not outgrow its limit.
use cce.Prelude.{ℕ, ◌≤◌, ◌<◌, ◌≡◌, List, [], ◌∷◌, arith, length, max}
use cce.Prelude.Map.{length-insert-le, length-retain-le}
use cce.Gateway.Cache.{
  key_eq, SearchCache, new, make_room, put, invalidate_repo, finish_flight, begin_flight, Event,
  store, pushed, begin, finish, call, run,
}

length-make_room : (now : ℕ) (c : SearchCache) → length (make_room now c) < max c.max_entries 1
unfolding make_room
length-make_room now c = ground arith

-- One call keeps the limit, and keeps the cache within it.
call_bound :
    (ev : Event) (c : SearchCache)
    → length c.entries ≤ max c.max_entries 1
    → ((call ev c).max_entries ≡ c.max_entries) × (length (call ev c).entries ≤ max c.max_entries 1)
unfolding call put invalidate_repo finish_flight begin_flight
call_bound (store now key body ct) c h = ground (
  arith,
  length-make_room now c,
  length-insert-le key (record { body = body; content_type = ct; inserted = now })
      (make_room now c),
)
call_bound (pushed repo_id) c h = grind (arith, length-retain-le)
call_bound (begin key) c h = ground arith
call_bound (finish key) c h = ground arith

run_bound :
    (evs : List Event) (c : SearchCache)
    → length c.entries ≤ max c.max_entries 1
    → length (run evs c).entries ≤ max c.max_entries 1
unfolding run
run_bound [] c h = h
run_bound (ev ∷ evs) c h =
    let (same, fits) = call_bound ev c h in
    omega (arith, same, run_bound evs (call ev c) (omega (arith, same, fits)))

-- Whatever calls are made on a new cache, it never holds more than `max_entries` responses, or one
-- where `max_entries` is 0.
pub entries_bounded :
    (ttl max_entries : ℕ) (evs : List Event)
    → length (run evs (new ttl max_entries)).entries ≤ max max_entries 1
unfolding new
entries_bounded ttl max_entries evs = run_bound evs (new ttl max_entries) (omega arith)
