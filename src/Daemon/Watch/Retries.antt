-- ===== src/Daemon/Watch/Retries.antt =====
-- A snapshot is indexed until a run commits it, and then no more.
use cce.Prelude.{
  ◌+◌, ◌≡◌, refl, true, some, List, [], ◌∷◌, ◌++◌, Text, text_eq, arith, length, eq_refl,
}
use cce.Daemon.Watch.{
  WatchState, Scanned, scan_failed, scanned, Indexed, index_busy, index_failed, indexed, is_stale,
  commit, tick, run,
}

-- Polls that find this snapshot and whose index runs fail.
abbrev pub Failing : Text → List (Scanned × Indexed) → Type 0
Failing id [] = Unit
Failing id ((scanned j, index_busy) ∷ polls) = (j ≡ id) × Failing id polls
Failing id ((scanned j, index_failed) ∷ polls) = (j ≡ id) × Failing id polls
Failing id (_ ∷ _) = ⊥

-- Polls that find this snapshot or fail to scan.
abbrev pub Quiet : Text → List (Scanned × Indexed) → Type 0
Quiet id [] = Unit
Quiet id ((scan_failed, _) ∷ polls) = Quiet id polls
Quiet id ((scanned j, _) ∷ polls) = (j ≡ id) × Quiet id polls

run-Quiet :
    (id : Text) (polls : List (Scanned × Indexed)) (st : WatchState)
    → st.committed_snapshot ≡ some id
    → Quiet id polls
    → run polls st ≡ (0, st)
unfolding run tick is_stale
run-Quiet id [] st c h = refl
run-Quiet id ((scan_failed, a) ∷ polls) st c h = ground (arith, run-Quiet id polls st c h)
run-Quiet id ((scanned j, a) ∷ polls) st c (e, h) =
    ground (arith, eq_refl id, e, run-Quiet id polls st c h)

run-committed :
    (id : Text) (polls : List (Scanned × Indexed)) (st : WatchState)
    → is_stale st id ≡ true
    → Quiet id polls
    → run ((scanned id, indexed id) ∷ polls) st ≡ (1, commit id st)
unfolding run tick commit
run-committed id polls st s h = ground (arith, run-Quiet id polls (commit id st) refl h)

-- The worktree stands still at a snapshot that is not the committed one. While the index runs fail
-- or another run holds the lease, each poll starts one; the first run that succeeds commits the
-- snapshot; and from then on no poll starts another, whether or not its scan succeeds.
pub indexed_until_committed :
    (id : Text) (failing quiet : List (Scanned × Indexed)) (st : WatchState)
    → is_stale st id ≡ true
    → Failing id failing
    → Quiet id quiet
    → run (failing ++ (scanned id, indexed id) ∷ quiet) st ≡ (length failing + 1, commit id st)
unfolding run tick
indexed_until_committed id [] quiet st s f q = run-committed id quiet st s q
indexed_until_committed id ((scanned j, index_busy) ∷ failing) quiet st s (e, f) q =
    ground (arith, e, indexed_until_committed id failing quiet st s f q)
indexed_until_committed id ((scanned j, index_failed) ∷ failing) quiet st s (e, f) q =
    ground (arith, e, indexed_until_committed id failing quiet st s f q)
indexed_until_committed id ((scanned j, indexed k) ∷ failing) quiet st s f q = absurd f
indexed_until_committed id ((scan_failed, a) ∷ failing) quiet st s f q = absurd f
