-- ===== src/Daemon/Watch.antt =====
-- The watch loop of apps/daemon/src/watch.rs. What a scan and an index run answer is an argument.
pub mod Retries
use cce.Prelude.{
  ℕ, suc, ◌+◌, Bool, true, false, not, Option, none, some, List, [], ◌∷◌, Text, text_eq, ◌==◌,
  if◌then◌else◌,
}

pub record WatchState : Type 0 where
  pub committed_snapshot : Option Text

abbrev pub initial : WatchState
initial = record { committed_snapshot = none }

abbrev is_other : Option Text → Text → Bool
is_other none id = true
is_other (some committed) id = not (committed == id)

unfoldable pub is_stale : WatchState → Text → Bool
is_stale st snapshot_id = is_other st.committed_snapshot snapshot_id

unfoldable pub commit : Text → WatchState → WatchState
commit snapshot_id st = record st { committed_snapshot = some snapshot_id }

-- The id of the scanned snapshot, or an error.
pub data Scanned : Type 0 where
  scan_failed : Scanned
  scanned : Text → Scanned

-- The id of the snapshot that an index run committed, or why there is none.
pub data Indexed : Type 0 where
  index_busy index_failed : Indexed
  indexed : Text → Indexed

abbrev pub settle : Indexed → WatchState → WatchState
settle index_busy st = st
settle index_failed st = st
settle (indexed id) st = commit id st

-- One poll cycle: whether an index run is started, and the state afterwards.
unfoldable pub tick : Scanned → Indexed → WatchState → Bool × WatchState
unfolding commit
tick scan_failed answer st = (false, st)
tick (scanned id) answer st = if is_stale st id then (true, settle answer st) else (false, st)

abbrev pub add_run : Bool → ℕ → ℕ
add_run true n = suc n
add_run false n = n

-- The polls one after the other: how many index runs they start, and the state afterwards.
unfoldable pub run : List (Scanned × Indexed) → WatchState → ℕ × WatchState
run [] st = (0, st)
run ((scan, answer) ∷ polls) st =
    let (started, st') = tick scan answer st in
    let (runs, end) = run polls st' in (add_run started runs, end)
