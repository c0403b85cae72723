-- ===== src/Daemon/Tests.antt =====
-- Runs of apps/daemon/src/watch.rs.
use cce.Prelude.{◌+◌, ◌≡◌, refl, List, [], ◌∷◌, ◌++◌, txt, text_eq, length}
use cce.Daemon.Watch.{
  initial, Scanned, scan_failed, scanned, Indexed, index_busy, indexed, is_stale, commit, run,
}
use cce.Daemon.Watch.Retries.{indexed_until_committed}

abbrev busy : List (Scanned × Indexed)
busy = (scanned (txt "s"), index_busy) ∷ []

abbrev later : List (Scanned × Indexed)
later = (scan_failed, index_busy) ∷ (scanned (txt "s"), index_busy) ∷ []

indexed_until_committed_example :
    run (busy ++ (scanned (txt "s"), indexed (txt "s")) ∷ later) initial
    ≡ (length busy + 1, commit (txt "s") initial)
unfolding is_stale
indexed_until_committed_example =
    indexed_until_committed (txt "s") busy later initial refl (refl, tt) (refl, tt)
