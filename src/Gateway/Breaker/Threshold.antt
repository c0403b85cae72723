-- ===== src/Gateway/Breaker/Threshold.antt =====
-- A circuit opens exactly when the failures since the last answer reach the threshold.
use native.Mathlib.Nat.{zero-add}
use cce.Prelude.{
  ℕ, suc, ◌+◌, ◌≤◌, ◌<◌, ◌≡◌, false, Option, none, some, List, [], ◌∷◌, ◌++◌, Text, text_eq, arith,
  ◌==◌, eq_refl, if◌then◌else◌, leb, min, txt, ◌↔◌, subst, Bool-cases, inl, inr,
}
use cce.Prelude.Map.{lookup}
use cce.Gateway.Breaker.Single
use cce.Gateway.Breaker.Single.{Circuit, is_some, default, u32_max}
use cce.Gateway.Breaker.{
  Breakers, Event, ask, answered, failed, call, run, or_default, new, state_name,
}
use cce.Gateway.Breaker.Isolation.{
  turn, turns, turn_at, lookup-run, lookup-call, run-append, run_keeps_config, call_keeps_config,
}

-- None of the calls reports an answer of this worker.
abbrev pub NoAnswer : Text → List Event → Type 0
NoAnswer k [] = Unit
NoAnswer k (ask _ _ ∷ evs) = NoAnswer k evs
NoAnswer k (answered j ∷ evs) = ((j == k) ≡ false) × NoAnswer k evs
NoAnswer k (failed _ _ ∷ evs) = NoAnswer k evs

-- How many of the calls report a failure of this worker.
abbrev pub failures_of : Text → List Event → ℕ
failures_of k [] = 0
failures_of k (failed _ j ∷ evs) = let rest = failures_of k evs in if j == k then suc rest else rest
failures_of k (_ ∷ evs) = failures_of k evs

-- The circuit of a worker after `n` failures in a row.
record Counted (th n : ℕ) (c : Circuit) : Type 0 where
  failures : c.failures ≡ min n u32_max
  opened : is_some c.open_until ≡ leb th n

Counted-fail :
    (th cd n now : ℕ) (c : Circuit)
    → 0 < th
    → th ≤ u32_max
    → Counted th n c
    → Counted th (n + 1) (Single.fail th cd now c)
unfolding Single.fail
Counted-fail th cd n now c p m h = record { failures = ground arith; opened = ground arith }

Counted-turns :
    (th cd n : ℕ) (k : Text) (evs : List Event) (o : Option Circuit)
    → 0 < th
    → th ≤ u32_max
    → Counted th n (or_default o)
    → NoAnswer k evs
    → Counted th (n + failures_of k evs) (or_default (turns th cd k evs o))
unfolding turns turn Single.admit Single.fail
Counted-turns th cd n k [] o p m h q = record { failures = omega arith; opened = ground arith }
Counted-turns th cd n k (ask now j ∷ evs) o p m h q =
    Counted-turns th cd n k evs (turn_at th cd k (ask now j) o) p m (ground arith) q
Counted-turns th cd n k (answered j ∷ evs) o p m h (ne, q) =
    Counted-turns th cd n k evs (turn_at th cd k (answered j) o) p m (ground arith) q
Counted-turns th cd n k (failed now j ∷ evs) o p m h q = elim (Bool-cases (j == k)) [
  | inl same ↦
      subst (λ r. Counted th r (or_default (turns th cd k (failed now j ∷ evs) o)))
        (rw same (omega arith))
        (Counted-turns th cd (n + 1) k evs (turn_at th cd k (failed now j) o) p m
          (rw same (Counted-fail th cd n now (or_default o) p m h)) q)
  | inr other ↦ rw other (Counted-turns th cd n k evs o p m h q)
]

Counted-run :
    (th : ℕ) (k : Text) (evs : List Event) (b : Breakers)
    → b.failure_threshold ≡ th
    → 0 < th
    → th ≤ u32_max
    → Counted th 0 (or_default (lookup k b.circuits))
    → NoAnswer k evs
    → Counted th (failures_of k evs) (or_default (lookup k (run evs b).circuits))
Counted-run th k evs b e p m h q =
    rw (lookup-run, e)
      (rw zero-add at (Counted-turns th b.cooldown 0 k evs (lookup k b.circuits) p m h q))

state_closed_iff :
    (th n now : ℕ) (k : Text) (b : Breakers)
    → Counted th n (or_default (lookup k b.circuits))
    → (state_name now k b ≡ txt "closed") ↔ (n < th)
unfolding state_name
state_closed_iff th n now k b h = (λ e. ground arith, λ e. ground arith)

Counted-answer :
    (th th' cd : ℕ) (k : Text) (o : Option Circuit)
    → 0 < th
    → Counted th 0 (or_default (turn th' cd (answered k) o))
unfolding turn Single.succeed
Counted-answer th th' cd k none p = record { failures = omega arith; opened = ground arith }
Counted-answer th th' cd k (some c) p = record { failures = omega arith; opened = ground arith }

Counted-success :
    (th : ℕ) (k : Text) (b : Breakers)
    → 0 < th
    → Counted th 0 (or_default (lookup k (call (answered k) b).circuits))
Counted-success th k b p =
    rw lookup-call
      (rw (eq_refl k) (Counted-answer th b.failure_threshold b.cooldown k (lookup k b.circuits) p))

-- A circuit of a new registry whose threshold is a positive `u32`: after any calls `before`, an
-- answer of the worker `k`, and any further calls in which `k` does not answer, the state of `k`
-- is `closed` exactly when fewer failures than the threshold were reported for `k` since the
-- answer; and the failure counter of `k` is the number of these failures, or the greatest `u32`
-- where they are more.
pub closed_iff_below_threshold :
    (threshold cooldown now : ℕ) (k : Text) (before evs : List Event)
    → 0 < threshold
    → threshold ≤ u32_max
    → NoAnswer k evs
    → let b = run (before ++ answered k ∷ evs) (new threshold cooldown) in
      ((state_name now k b ≡ txt "closed") ↔ (failures_of k evs < threshold))
      × ((or_default (lookup k b.circuits)).failures ≡ min (failures_of k evs) u32_max)
unfolding run new
closed_iff_below_threshold threshold cooldown now k before evs p m q =
    let start = run before (new threshold cooldown) in
    let b = call (answered k) start in
    let same : b.failure_threshold ≡ threshold = ground (
      arith,
      run_keeps_config before (new threshold cooldown),
      call_keeps_config (answered k) start,
    ) in
    let counted = Counted-run threshold k evs b same p m (Counted-success threshold k start p) q in
    rw run-append
      (state_closed_iff threshold (failures_of k evs) now k (run evs b) counted, counted.failures)
