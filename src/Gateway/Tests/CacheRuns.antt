-- ===== src/Gateway/Tests/CacheRuns.antt =====
-- Runs of apps/gateway/src/cache.rs.
use cce.Prelude.{◌≡◌, ◌≤◌, refl, none, some, List, [], ◌∷◌, ◌⊎◌, arith, txt, text_eq, length, max}
use cce.Prelude.Strings.{list_beq}
use cce.Prelude.Map.{lookup, insert, remove, retain}
use cce.Gateway.Cache.{
  Key, key_eq, follower, new, begin_flight, finish_flight, get, replay, make_room, put,
  invalidate_repo, Event, store, pushed, begin, finish, call, run,
}
use cce.Gateway.Cache.Replay.{ideal_call, ideal_run, get_sound}
use cce.Gateway.Cache.Complete.{get_complete}
use cce.Gateway.Cache.Bounds.{entries_bounded}
use cce.Gateway.Cache.Flights.{single_flight, finish_wakes_followers, Woken}

program : Unit {0}
unfolding new begin_flight finish_flight get make_room put invalidate_repo call run ideal_call
    ideal_run lookup insert remove retain list_beq
program = tt

abbrev q : Key
q = (txt "repo", txt "d1")

abbrev served : List Event
served = begin q ∷ store 3 q (txt "body") none ∷ finish q ∷ []

-- Replayed within the time to live, not after it, and not after a push.
replays :
    (get 8 q (run served (new 5 2)) ≡ some (txt "body", none))
    × (get 9 q (run served (new 5 2)) ≡ none)
    × (get 4 q (run (begin q ∷ store 3 q (txt "body") none ∷ pushed (txt "repo") ∷ []) (new 5 2))
        ≡ none)
unfolding program
replays = (refl, refl, refl)

-- A response that was fetched before a push and is stored after it is replayed.
stored_after_push :
    get 4 q (run (begin q ∷ pushed (txt "repo") ∷ store 3 q (txt "old") none ∷ []) (new 5 2))
    ≡ some (txt "old", none)
unfolding program
stored_after_push = refl

get_sound_example :
    (get 8 q (run served (new 5 2)) ≡ none)
    ⊎ (get 8 q (run served (new 5 2)) ≡ replay 5 8 (ideal_run served (λ _. none) q))
unfolding program
get_sound_example = get_sound 5 2 8 q served

get_complete_example : get 8 q (run served (new 5 2)) ≡ replay 5 8 (ideal_run served (λ _. none) q)
unfolding program
get_complete_example = get_complete 5 2 8 q served (omega arith)

entries_bounded_example : length (run served (new 5 0)).entries ≤ max 0 1
unfolding program
entries_bounded_example = entries_bounded 5 0 served

single_flight_example :
    (begin_flight q (run (begin q ∷ pushed (txt "repo") ∷ []) (begin_flight q (new 5 2)).1)).0
    ≡ follower 0
unfolding program
single_flight_example = single_flight (new 5 2) q (begin q ∷ pushed (txt "repo") ∷ []) refl tt

finish_wakes_followers_example :
    Woken 0 (run (begin q ∷ []) (finish_flight q (run (begin q ∷ []) (new 5 2))))
unfolding program
finish_wakes_followers_example = finish_wakes_followers 5 2 0 q (begin q ∷ []) (begin q ∷ []) refl
