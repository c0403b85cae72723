-- ===== src/Gateway/Cache/Complete.antt =====
-- A cache with room for every store replays what the ideal cache replays.
use cce.Prelude.{
  ℕ, suc, ◌+◌, ◌≤◌, ◌≡◌, not, none, List, [], ◌∷◌, text_eq, arith, ◌==◌, length, refl, ap,
}
use cce.Prelude.Map.{lookup, lookup-insert, lookup-retain_key, length-insert-le, length-retain-le}
use cce.Gateway.Cache.{
  Cached, Key, key_eq, SearchCache, new, get, replay, make_room, put, invalidate_repo,
  finish_flight, begin_flight, Event, store, pushed, begin, finish, call, run,
}
use cce.Gateway.Cache.Replay.{Ideal, ideal_call, ideal_run, entries-begin_flight, run_keeps_ttl}

-- How many of the calls store a response.
abbrev pub stores : List Event → ℕ
stores [] = 0
stores (store _ _ _ _ ∷ evs) = suc (stores evs)
stores (_ ∷ evs) = stores evs

record Matches (s : Ideal) (n : ℕ) (c : SearchCache) : Type 0 where
  same : (k : Key) → lookup k c.entries ≡ s k
  room : length c.entries + n ≤ c.max_entries

make_room_free :
    (now : ℕ) (c : SearchCache) → length c.entries + 1 ≤ c.max_entries → make_room now c ≡ c.entries
unfolding make_room
make_room_free now c h = ground arith

max_entries-begin_flight :
    (key : Key) (c : SearchCache) → (begin_flight key c).1.max_entries ≡ c.max_entries
unfolding begin_flight
max_entries-begin_flight key c = ground arith

Matches-run :
    (evs : List Event) (s : Ideal) (c : SearchCache) (k : Key)
    → Matches s (stores evs) c
    → lookup k (run evs c).entries ≡ ideal_run evs s k
unfolding run call ideal_run ideal_call put invalidate_repo finish_flight
Matches-run [] s c k h = h.same k
Matches-run (store now key body ct ∷ evs) s c k h =
    let v : Cached = record { body = body; content_type = ct; inserted = now } in
    let free = make_room_free now c (omega (arith, h.room)) in
    Matches-run evs (ideal_call (store now key body ct) s) (put now key body ct c) k (record {
      same = λ j. rw free (rw lookup-insert (rw (h.same j)));
      room = rw free (omega (arith, h.room, length-insert-le key v c.entries));
    })
Matches-run (pushed r ∷ evs) s c k h =
    Matches-run evs (ideal_call (pushed r) s) (invalidate_repo r c) k (record {
      same = λ j.
          ground (arith, lookup-retain_key (λ (i : Key). not (i.0 == r)) j c.entries, h.same j);
      room =
          omega
            (arith, h.room, length-retain-le (λ (i : Key) (_ : Cached). not (i.0 == r)) c.entries);
    })
Matches-run (begin key ∷ evs) s c k h = Matches-run evs s (begin_flight key c).1 k (record {
  same = λ j. rw entries-begin_flight (h.same j);
  room =
      omega (arith, h.room, ap length (entries-begin_flight key c), max_entries-begin_flight key c);
})
Matches-run (finish key ∷ evs) s c k h =
    Matches-run evs s (finish_flight key c) k (record { same = h.same; room = h.room })

-- On a new cache, if the calls store at most `max_entries` responses, nothing is lost: `get`
-- answers exactly what the ideal cache answers.
pub get_complete :
    (ttl max_entries now : ℕ) (key : Key) (evs : List Event)
    → stores evs ≤ max_entries
    → get now key (run evs (new ttl max_entries)) ≡ replay ttl now (ideal_run evs (λ _. none) key)
unfolding get new lookup
get_complete ttl max_entries now key evs h = rw (
  Matches-run evs (λ _. none) (new ttl max_entries) key
      (record { same = λ k. refl; room = omega (arith, h) }),
  run_keeps_ttl evs (new ttl max_entries),
)
