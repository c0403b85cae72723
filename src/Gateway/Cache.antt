-- ===== src/Gateway/Cache.antt =====
-- `SearchCache` of apps/gateway/src/cache.rs: the proxy's stored search responses and the fetches
-- in flight. Each method reads the clock (`now`) and runs under a mutex. A watch channel is the
-- number that `watch::channel` gives it: its sender is held by the entry of `inflight`, and a
-- follower's `changed()` resolves once no entry holds that number.
pub mod Replay
pub mod Complete
pub mod Bounds
pub mod Flights
use cce.Prelude.{
  ℕ, ◌+◌, ◌-◌, Bool, true, false, not, Option, none, some, List, [], ◌∷◌, Text, text_eq, Eq,
  pair_eq, ◌==◌, leb, if◌then◌else◌, length,
}
use cce.Prelude.Map.{lookup, insert, remove, retain}

pub record Cached : Type 0 where
  pub body : Text
  pub content_type : Option Text
  pub inserted : ℕ

-- `(repo_id, body_digest)`.
abbrev pub Key : Type 0
Key = Text × Text

instance abbrev pub key_eq : Eq Key
key_eq = pair_eq

pub record SearchCache : Type 0 where
  pub entries : List (Key × Cached)
  pub inflight : List (Key × ℕ)
  pub channels : ℕ  -- the channels made so far
  pub ttl : ℕ
  pub max_entries : ℕ

pub data Flight : Type 0 where
  leader : Flight
  follower : ℕ → Flight

unfoldable pub new : ℕ → ℕ → SearchCache
new ttl max_entries = record {
  entries = [];
  inflight = [];
  channels = 0;
  ttl = ttl;
  max_entries = max_entries;
}

unfoldable pub begin_flight : Key → SearchCache → Flight × SearchCache
begin_flight key c = elim (lookup key c.inflight) [
  | some sender ↦ (follower sender, c)
  | none ↦
      (leader, record c { inflight = insert key c.channels c.inflight; channels = c.channels + 1 })
]

unfoldable pub finish_flight : Key → SearchCache → SearchCache
finish_flight key c = record c { inflight = remove key c.inflight }

-- `cached.inserted.elapsed() <= ttl`.
abbrev pub is_fresh : ℕ → ℕ → Cached → Bool
is_fresh ttl now cached = leb (now - cached.inserted) ttl

abbrev pub replay : ℕ → ℕ → Option Cached → Option (Text × Option Text)
replay ttl now none = none
replay ttl now (some cached) =
    if is_fresh ttl now cached then some (cached.body, cached.content_type) else none

unfoldable pub get : ℕ → Key → SearchCache → Option (Text × Option Text)
get now key c = replay c.ttl now (lookup key c.entries)

-- On overflow what has expired is swept, and a cache that is still full is cleared.
unfoldable pub make_room : ℕ → SearchCache → List (Key × Cached)
make_room now c =
    if leb c.max_entries (length c.entries)
    then (let swept = retain (λ _ cached. is_fresh c.ttl now cached) c.entries in
        if leb c.max_entries (length swept) then [] else swept)
    else c.entries

unfoldable pub put : ℕ → Key → Text → Option Text → SearchCache → SearchCache
unfolding make_room
put now key body content_type c = record c {
  entries =
      insert key (record { body = body; content_type = content_type; inserted = now })
        (make_room now c);
}

unfoldable pub invalidate_repo : Text → SearchCache → SearchCache
invalidate_repo repo_id c = record c {
  entries = retain (λ key _. not (key.0 == repo_id)) c.entries;
}

-- One call that changes the cache.
pub data Event : Type 0 where
  store : ℕ → Key → Text → Option Text → Event
  pushed : Text → Event
  begin : Key → Event
  finish : Key → Event

unfoldable pub call : Event → SearchCache → SearchCache
call (store now key body content_type) c = put now key body content_type c
call (pushed repo_id) c = invalidate_repo repo_id c
call (begin key) c = (begin_flight key c).1
call (finish key) c = finish_flight key c

unfoldable pub run : List Event → SearchCache → SearchCache
run [] c = c
run (ev ∷ evs) c = run evs (call ev c)
