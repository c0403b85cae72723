-- ===== src/Gateway/Breaker/Cooldown.antt =====
-- An open circuit refuses until its cooldown has passed.
use cce.Prelude.{
  ℕ, ◌+◌, ◌≤◌, ◌<◌, ◌≡◌, true, false, Option, none, some, List, [], ◌∷◌, Text, text_eq, arith, ◌==◌,
  eq_refl, refl, not, ◌||◌, leb,
}
use cce.Prelude.Map.{lookup, lookup-insert}
use cce.Gateway.Breaker.Single
use cce.Gateway.Breaker.Single.{Circuit, is_some}
use cce.Gateway.Breaker.{Breakers, Event, ask, answered, failed, run, or_default, admit, on_failure}
use cce.Gateway.Breaker.Isolation.{turn, turns, turn_at, lookup-run}

-- The calls after an outage: this worker answers none, and its own failures come no earlier.
abbrev pub NoAnswerSince : ℕ → Text → List Event → Type 0
NoAnswerSince t k [] = Unit
NoAnswerSince t k (ask _ _ ∷ evs) = NoAnswerSince t k evs
NoAnswerSince t k (answered j ∷ evs) = ((j == k) ≡ false) × NoAnswerSince t k evs
NoAnswerSince t k (failed now j ∷ evs) =
    ((not (j == k) || leb t now) ≡ true) × NoAnswerSince t k evs

abbrev or_zero : Option ℕ → ℕ
or_zero none = 0
or_zero (some u) = u

abbrev deadline : Option Circuit → ℕ
deadline none = 0
deadline (some c) = or_zero c.open_until

deadline-turns :
    (th cd t : ℕ) (k : Text) (evs : List Event) (o : Option Circuit)
    → t + cd ≤ deadline o
    → NoAnswerSince t k evs
    → t + cd ≤ deadline (turns th cd k evs o)
unfolding turns turn Single.admit Single.fail
deadline-turns th cd t k [] o h q = h
deadline-turns th cd t k (ask now j ∷ evs) o h q =
    deadline-turns th cd t k evs (turn_at th cd k (ask now j) o) (ground arith) q
deadline-turns th cd t k (answered j ∷ evs) o h (ne, q) =
    deadline-turns th cd t k evs (turn_at th cd k (answered j) o) (ground arith) q
deadline-turns th cd t k (failed now j ∷ evs) o h (le, q) =
    deadline-turns th cd t k evs (turn_at th cd k (failed now j) o) (ground arith) q

refused_before :
    (now : ℕ) (k : Text) (b : Breakers)
    → now < deadline (lookup k b.circuits)
    → (admit now k b).0 ≡ false
unfolding admit Single.admit
refused_before now k b h = ground arith

opened :
    (t : ℕ) (k : Text) (b : Breakers) (c : Circuit)
    → lookup k (on_failure t k b).circuits ≡ some c
    → is_some c.open_until ≡ true
    → deadline (lookup k (on_failure t k b).circuits) ≡ t + b.cooldown
unfolding on_failure Single.fail
opened t k b c h o = ground (
  arith,
  eq_refl k,
  lookup-insert k k
      (Single.fail b.failure_threshold b.cooldown t (or_default (lookup k b.circuits))) b.circuits,
)

cooldown-on_failure : (t : ℕ) (k : Text) (b : Breakers) → (on_failure t k b).cooldown ≡ b.cooldown
unfolding on_failure
cooldown-on_failure t k b = refl

-- A failure at time `t` leaves a worker's circuit open. Then every call for this worker before
-- `t + cooldown` is refused, whatever calls come between, as long as the worker reports no answer
-- and its later failures come at `t` or after it.
pub refused_while_open :
    (b : Breakers) (k : Text) (c : Circuit) (t now : ℕ) (evs : List Event)
    → lookup k (on_failure t k b).circuits ≡ some c
    → is_some c.open_until ≡ true
    → NoAnswerSince t k evs
    → now < t + b.cooldown
    → (admit now k (run evs (on_failure t k b))).0 ≡ false
refused_while_open b k c t now evs h o q early =
    let b' = on_failure t k b in
    let bound =
      deadline-turns b'.failure_threshold b'.cooldown t k evs (lookup k b'.circuits)
        (omega (arith, opened t k b c h o, cooldown-on_failure t k b)) q in
    refused_before now k (run evs b')
      (rw lookup-run (omega (arith, bound, cooldown-on_failure t k b)))
