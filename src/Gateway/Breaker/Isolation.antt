-- ===== src/Gateway/Breaker/Isolation.antt =====
-- A call for one worker is a step of that worker's circuit, and of no other.
use cce.Prelude.{
  ℕ, ◌≡◌, refl, Option, none, some, List, [], ◌∷◌, ◌++◌, Text, text_eq, arith, ◌==◌, eq_iff,
  if◌then◌else◌,
}
use cce.Prelude.Map.{lookup, lookup-insert}
use cce.Gateway.Breaker.Single
use cce.Gateway.Breaker.Single.{Circuit}
use cce.Gateway.Breaker.{Breakers, Event, ask, answered, failed, call, run, or_default}

-- What one call does to the circuit of the worker that it names.
unfoldable pub turn : ℕ → ℕ → Event → Option Circuit → Option Circuit
turn threshold cooldown (ask now _) none = none
turn threshold cooldown (ask now _) (some c) = some (Single.admit now c).1
turn threshold cooldown (answered _) none = none
turn threshold cooldown (answered _) (some c) = some (Single.succeed c)
turn threshold cooldown (failed now _) o = some (Single.fail threshold cooldown now (or_default o))

abbrev pub key_of : Event → Text
key_of (ask _ k) = k
key_of (answered k) = k
key_of (failed _ k) = k

abbrev pub turn_at : ℕ → ℕ → Text → Event → Option Circuit → Option Circuit
turn_at threshold cooldown k ev o = if key_of ev == k then turn threshold cooldown ev o else o

unfoldable pub turns : ℕ → ℕ → Text → List Event → Option Circuit → Option Circuit
turns threshold cooldown k [] o = o
turns threshold cooldown k (ev ∷ evs) o =
    turns threshold cooldown k evs (turn_at threshold cooldown k ev o)

pub call_keeps_config :
    (ev : Event) (b : Breakers)
    → ((call ev b).failure_threshold ≡ b.failure_threshold) × ((call ev b).cooldown ≡ b.cooldown)
unfolding call
call_keeps_config (ask now key) b = ground arith
call_keeps_config (answered key) b = ground arith
call_keeps_config (failed now key) b = ground arith

pub lookup-call :
    (k : Text) (ev : Event) (b : Breakers)
    → lookup k (call ev b).circuits
      ≡ turn_at b.failure_threshold b.cooldown k ev (lookup k b.circuits)
unfolding call turn
lookup-call k (ask now key) b = ground (
  arith,
  eq_iff key k,
  lookup-insert key k (Single.admit now (or_default (lookup key b.circuits))).1 b.circuits,
)
lookup-call k (answered key) b = ground (
  arith,
  eq_iff key k,
  lookup-insert key k (Single.succeed (or_default (lookup key b.circuits))) b.circuits,
)
lookup-call k (failed now key) b = ground (
  arith,
  eq_iff key k,
  lookup-insert key k
      (Single.fail b.failure_threshold b.cooldown now (or_default (lookup key b.circuits)))
      b.circuits,
)

-- After any calls, in any order, the circuit of a worker is what the calls that name this worker
-- make of it, one after the other: calls for other workers do not change it.
pub lookup-run :
    (k : Text) (evs : List Event) (b : Breakers)
    → lookup k (run evs b).circuits
      ≡ turns b.failure_threshold b.cooldown k evs (lookup k b.circuits)
unfolding run turns
lookup-run k [] b = refl
lookup-run k (ev ∷ evs) b =
    ground (arith, lookup-run k evs (call ev b), lookup-call k ev b, call_keeps_config ev b)

pub run_circuit :
    (k : Text) (evs : List Event) (b : Breakers) (o o' : Option Circuit)
    → lookup k b.circuits ≡ o
    → turns b.failure_threshold b.cooldown k evs o ≡ o'
    → lookup k (run evs b).circuits ≡ o'
run_circuit k evs b o o' h e = cc (lookup-run k evs b)

pub run_keeps_config :
    (evs : List Event) (b : Breakers)
    → ((run evs b).failure_threshold ≡ b.failure_threshold) × ((run evs b).cooldown ≡ b.cooldown)
unfolding run
run_keeps_config [] b = (refl, refl)
run_keeps_config (ev ∷ evs) b =
    ground (arith, run_keeps_config evs (call ev b), call_keeps_config ev b)

pub run-append :
    (before evs : List Event) (b : Breakers) → run (before ++ evs) b ≡ run evs (run before b)
unfolding run
run-append [] evs b = refl
run-append (ev ∷ before) evs b = run-append before evs (call ev b)
