-- ===== src/Gateway/Breaker/Probe.antt =====
-- A half-open circuit lets one probe through, and an open one lets nothing through.
use cce.Prelude.{
  ℕ, ◌≡◌, Bool, true, false, some, List, [], ◌∷◌, Text, text_eq, arith, ◌==◌, eq_refl, refl, ap,
}
use cce.Prelude.Map.{lookup, lookup-insert}
use cce.Gateway.Breaker.Single
use cce.Gateway.Breaker.Single.{Circuit, is_some}
use cce.Gateway.Breaker.{Breakers, Event, ask, answered, failed, run, admit}
use cce.Gateway.Breaker.Isolation.{turn, turns, run_circuit}

-- None of the calls reports an outcome for this worker.
abbrev pub NoOutcome : Text → List Event → Type 0
NoOutcome k [] = Unit
NoOutcome k (ask _ _ ∷ evs) = NoOutcome k evs
NoOutcome k (answered j ∷ evs) = ((j == k) ≡ false) × NoOutcome k evs
NoOutcome k (failed _ j ∷ evs) = ((j == k) ≡ false) × NoOutcome k evs

busy_admit :
    (now : ℕ) (c : Circuit)
    → is_some c.open_until ≡ true
    → c.probing ≡ true
    → Single.admit now c ≡ (false, c)
unfolding Single.admit
busy_admit now c o p = ground arith

busy_turns :
    (threshold cooldown : ℕ) (k : Text) (evs : List Event) (c : Circuit)
    → is_some c.open_until ≡ true
    → c.probing ≡ true
    → NoOutcome k evs
    → turns threshold cooldown k evs (some c) ≡ some c
unfolding turns turn
busy_turns th cd k [] c o p q = refl
busy_turns th cd k (ask now j ∷ evs) c o p q =
    ground (arith, busy_admit now c o p, busy_turns th cd k evs c o p q)
busy_turns th cd k (answered j ∷ evs) c o p (ne, q) = ground (arith, busy_turns th cd k evs c o p q)
busy_turns th cd k (failed now j ∷ evs) c o p (ne, q) =
    ground (arith, busy_turns th cd k evs c o p q)

granted_busy :
    (now : ℕ) (c : Circuit)
    → is_some c.open_until ≡ true
    → (Single.admit now c).0 ≡ true
    → (is_some (Single.admit now c).1.open_until ≡ true) × ((Single.admit now c).1.probing ≡ true)
unfolding Single.admit
granted_busy now c o g = ground arith

admitted_known :
    (now : ℕ) (k : Text) (b : Breakers) (c : Circuit)
    → lookup k b.circuits ≡ some c
    → ((admit now k b).0 ≡ (Single.admit now c).0)
      × (lookup k (admit now k b).1.circuits ≡ some (Single.admit now c).1)
unfolding admit
admitted_known now k b c h =
    ground (arith, eq_refl k, lookup-insert k k (Single.admit now c).1 b.circuits)

-- A worker's circuit is open, and a call for this worker is admitted: the probe. Then whatever
-- calls follow, by any threads and at any time, as long as none reports an outcome for this
-- worker, the next call for it is refused.
pub single_probe :
    (b : Breakers) (k : Text) (c : Circuit) (now later : ℕ) (evs : List Event)
    → lookup k b.circuits ≡ some c
    → is_some c.open_until ≡ true
    → (admit now k b).0 ≡ true
    → NoOutcome k evs
    → (admit later k (run evs (admit now k b).1)).0 ≡ false
single_probe b k c now later evs h o g q =
    let (answer, stored) = admitted_known now k b c h in
    let b' = (admit now k b).1 in
    let c' = (Single.admit now c).1 in
    let (open', probing') = granted_busy now c o (cc) in
    let stays = busy_turns b'.failure_threshold b'.cooldown k evs c' open' probing' q in
    let kept = run_circuit k evs b' (some c') (some c') stored stays in
    cc (
      (admitted_known later k (run evs b') c' kept).0,
      ap (λ (p : Bool × Circuit). p.0) (busy_admit later c' open' probing'),
    )
