-- ===== src/Gateway/Cache/Flights.antt =====
-- At most one fetch is in flight for a key, and no follower waits for ever.
use cce.Prelude.{
  ℕ, ◌+◌, ◌<◌, ◌≡◌, ◌≢◌, false, none, some, List, [], ◌∷◌, text_eq, arith, ◌==◌, eq_iff, eq_refl,
  Bool-cases, inl, inr, Option-cases, sym,
}
use cce.Prelude.Map.{
  lookup, insert, remove, Every, Every-remove, Every-lookup, lookup-insert, lookup-remove,
}
use cce.Gateway.Cache.{
  Key, key_eq, SearchCache, leader, follower, new, begin_flight, finish_flight, put,
  invalidate_repo, Event, store, pushed, begin, finish, call, run,
}

abbrev pub NoFinish : Key → List Event → Type 0
NoFinish k [] = Unit
NoFinish k (finish j ∷ evs) = ((j == k) ≡ false) × NoFinish k evs
NoFinish k (_ ∷ evs) = NoFinish k evs

begin_stored :
    (k : Key) (c : SearchCache)
    → (begin_flight k c).0 ≡ leader
    → lookup k (begin_flight k c).1.inflight ≡ some c.channels
unfolding begin_flight
begin_stored k c h = ground (arith, eq_refl k, lookup-insert k k c.channels c.inflight)

begin_follows :
    (k : Key) (ch : ℕ) (c : SearchCache)
    → lookup k c.inflight ≡ some ch
    → (begin_flight k c).0 ≡ follower ch
unfolding begin_flight
begin_follows k ch c h = ground arith

held-begin :
    (k j : Key) (ch : ℕ) (c : SearchCache)
    → lookup k c.inflight ≡ some ch
    → lookup k (begin_flight j c).1.inflight ≡ some ch
unfolding begin_flight
held-begin k j ch c h = ground (arith, eq_iff j k, lookup-insert j k c.channels c.inflight)

held-run :
    (k : Key) (ch : ℕ) (evs : List Event) (c : SearchCache)
    → lookup k c.inflight ≡ some ch
    → NoFinish k evs
    → lookup k (run evs c).inflight ≡ some ch
unfolding run call put invalidate_repo finish_flight
held-run k ch [] c h q = h
held-run k ch (store now j b t ∷ evs) c h q = held-run k ch evs (put now j b t c) h q
held-run k ch (pushed r ∷ evs) c h q = held-run k ch evs (invalidate_repo r c) h q
held-run k ch (begin j ∷ evs) c h q =
    held-run k ch evs (begin_flight j c).1 (held-begin k j ch c h) q
held-run k ch (finish j ∷ evs) c h (ne, q) =
    held-run k ch evs (finish_flight j c) (ground (arith, lookup-remove j k c.inflight)) q

-- A caller is made the leader for a key. Until `finish_flight` is called for this key, whatever
-- other calls are made, every further caller for it is a follower, on the leader's channel.
pub single_flight :
    (c : SearchCache) (k : Key) (evs : List Event)
    → (begin_flight k c).0 ≡ leader
    → NoFinish k evs
    → (begin_flight k (run evs (begin_flight k c).1)).0 ≡ follower c.channels
single_flight c k evs h q =
    begin_follows k c.channels (run evs (begin_flight k c).1)
      (held-run k c.channels evs (begin_flight k c).1 (begin_stored k c h) q)

begin_new :
    (k : Key) (c : SearchCache)
    → lookup k c.inflight ≡ none
    → begin_flight k c
      ≡ (leader, record c { inflight = insert k c.channels c.inflight; channels = c.channels + 1 })
unfolding begin_flight
begin_new k c h = rw (h, begin_flight)

begin_old :
    (k : Key) (ch : ℕ) (c : SearchCache)
    → lookup k c.inflight ≡ some ch
    → begin_flight k c ≡ (follower ch, c)
unfolding begin_flight
begin_old k ch c h = rw (h, begin_flight)

-- No two entries hold the same channel, and none holds one that is still to be made.
abbrev Distinct : ℕ → List (Key × ℕ) → Type 0
Distinct fresh [] = Unit
Distinct fresh ((k, w) ∷ m) = (w < fresh) × Every (λ _ v. v ≢ w) m × Distinct fresh m

Distinct-weaken : (n : ℕ) (m : List (Key × ℕ)) → Distinct n m → Distinct (n + 1) m
Distinct-weaken n [] h = tt
Distinct-weaken n ((k, w) ∷ m) (lt, ne, h) = (omega arith, ne, Distinct-weaken n m h)

Distinct-remove : (n : ℕ) (k : Key) (m : List (Key × ℕ)) → Distinct n m → Distinct n (remove k m)
unfolding remove
Distinct-remove n k [] h = tt
Distinct-remove n k ((j, w) ∷ m) (lt, ne, h) = elim (Bool-cases (j == k)) [
  | inl same ↦ rw same (Distinct-remove n k m h)
  | inr other ↦ rw other (
    lt,
    Every-remove (λ _ v. v ≢ w) (λ _ v. v ≢ w) k m (λ _ _ _ p. p) ne,
    Distinct-remove n k m h,
  )
]

Distinct-fresh : (n : ℕ) (m : List (Key × ℕ)) → Distinct n m → Every (λ _ v. v ≢ n) m
Distinct-fresh n [] h = tt
Distinct-fresh n ((j, w) ∷ m) (lt, ne, h) = (omega arith, Distinct-fresh n m h)

Distinct-begin :
    (j : Key) (c : SearchCache)
    → Distinct c.channels c.inflight
    → Distinct (begin_flight j c).1.channels (begin_flight j c).1.inflight
unfolding insert
Distinct-begin j c h = elim (Option-cases (lookup j c.inflight)) [
  | inl free ↦ rw (begin_new j c free) (
      let h' = Distinct-remove c.channels j c.inflight h in
      (
        omega arith,
        Distinct-fresh c.channels (remove j c.inflight) h',
        Distinct-weaken c.channels (remove j c.inflight) h',
      ))
  | inr (ch, taken) ↦ rw (begin_old j ch c taken) h
]

Distinct-call :
    (ev : Event) (c : SearchCache)
    → Distinct c.channels c.inflight
    → Distinct (call ev c).channels (call ev c).inflight
unfolding call put invalidate_repo finish_flight
Distinct-call (store now j b t) c h = h
Distinct-call (pushed r) c h = h
Distinct-call (begin j) c h = Distinct-begin j c h
Distinct-call (finish j) c h = Distinct-remove c.channels j c.inflight h

Distinct-run :
    (evs : List Event) (c : SearchCache)
    → Distinct c.channels c.inflight
    → Distinct (run evs c).channels (run evs c).inflight
unfolding run
Distinct-run [] c h = h
Distinct-run (ev ∷ evs) c h = Distinct-run evs (call ev c) (Distinct-call ev c h)

-- The sender of this channel has been dropped, so that `changed()` resolves for its followers.
abbrev pub Woken : ℕ → SearchCache → Type 0
Woken ch c = Every (λ _ w. w ≢ ch) c.inflight

Woken-remove :
    (n : ℕ) (k : Key) (ch : ℕ) (m : List (Key × ℕ))
    → Distinct n m
    → lookup k m ≡ some ch
    → Every (λ _ w. w ≢ ch) (remove k m)
unfolding remove lookup
Woken-remove n k ch [] d h = tt
Woken-remove n k ch ((j, w) ∷ m) (lt, ne, d) h = elim (Bool-cases (j == k)) [
  | inl same ↦
      rw same
        (Every-remove (λ _ v. v ≢ w) (λ _ v. v ≢ ch) k m (λ _ _ _ p q. p (ground (arith, same))) ne)
  | inr other ↦
      let h' : lookup k m ≡ some ch = ground (arith, other) in
      rw other (λ e. Every-lookup (λ _ v. v ≢ w) k ch m ne h' (sym e), Woken-remove n k ch m d h')
]

Woken-begin :
    (ch : ℕ) (j : Key) (c : SearchCache)
    → (ch < c.channels) × Woken ch c
    → (ch < (begin_flight j c).1.channels) × Woken ch (begin_flight j c).1
unfolding insert
Woken-begin ch j c (lt, h) = elim (Option-cases (lookup j c.inflight)) [
  | inl free ↦ rw (begin_new j c free) (
    omega arith,
    (omega arith, Every-remove (λ _ w. w ≢ ch) (λ _ w. w ≢ ch) j c.inflight (λ _ _ _ p. p) h),
  )
  | inr (ch', taken) ↦ rw (begin_old j ch' c taken) (lt, h)
]

Woken-call :
    (ch : ℕ) (ev : Event) (c : SearchCache)
    → (ch < c.channels) × Woken ch c
    → (ch < (call ev c).channels) × Woken ch (call ev c)
unfolding call put invalidate_repo finish_flight
Woken-call ch (store now j b t) c h = h
Woken-call ch (pushed r) c h = h
Woken-call ch (begin j) c h = Woken-begin ch j c h
Woken-call ch (finish j) c (lt, h) =
    (lt, Every-remove (λ _ w. w ≢ ch) (λ _ w. w ≢ ch) j c.inflight (λ _ _ _ p. p) h)

Woken-run :
    (ch : ℕ) (evs : List Event) (c : SearchCache)
    → (ch < c.channels) × Woken ch c
    → Woken ch (run evs c)
unfolding run
Woken-run ch [] c h = h.1
Woken-run ch (ev ∷ evs) c h = Woken-run ch evs (call ev c) (Woken-call ch ev c h)

Distinct-bound : (n : ℕ) (m : List (Key × ℕ)) → Distinct n m → Every (λ _ w. w < n) m
Distinct-bound n [] h = tt
Distinct-bound n ((j, w) ∷ m) (lt, ne, h) = (lt, Distinct-bound n m h)

follows_held :
    (k : Key) (ch : ℕ) (c : SearchCache)
    → (begin_flight k c).0 ≡ follower ch
    → lookup k c.inflight ≡ some ch
unfolding begin_flight
follows_held k ch c h = ground arith

-- After any calls on a new cache, a caller becomes a follower on a channel. Once `finish_flight`
-- has been called for its key, the sender of that channel is dropped, and stays dropped whatever
-- calls follow: the follower is woken, and no later flight shares its channel.
pub finish_wakes_followers :
    (ttl max_entries ch : ℕ) (k : Key) (before after : List Event)
    → (begin_flight k (run before (new ttl max_entries))).0 ≡ follower ch
    → Woken ch (run after (finish_flight k (run before (new ttl max_entries))))
unfolding finish_flight new
finish_wakes_followers ttl max_entries ch k before after h =
    let c = run before (new ttl max_entries) in
    let d = Distinct-run before (new ttl max_entries) tt in
    let held = follows_held k ch c h in
    Woken-run ch after (finish_flight k c) (
      Every-lookup (λ _ w. w < c.channels) k ch c.inflight (Distinct-bound c.channels c.inflight d)
          held,
      Woken-remove c.channels k ch c.inflight d held,
    )
