-- ===== src/Gateway/Breaker.antt =====
-- `Breakers` of apps/gateway/src/breaker.rs: the circuits of all workers behind one mutex. Each
-- method holds the lock from its first line to its last, so a run is a sequence of calls.
pub mod Single
pub mod Isolation
pub mod Probe
pub mod Sound
pub mod Cooldown
pub mod Threshold
use cce.Prelude.{
  ℕ, Bool, true, Option, none, some, List, [], ◌∷◌, Text, txt, text_eq, ltb, if◌then◌else◌,
}
use cce.Prelude.Map.{lookup, insert}
use Single.{Circuit, default}

pub record Breakers : Type 0 where
  pub circuits : List (Text × Circuit)
  pub failure_threshold : ℕ  -- u32
  pub cooldown : ℕ

unfoldable pub new : ℕ → ℕ → Breakers
new failure_threshold cooldown = record {
  circuits = [];
  failure_threshold = failure_threshold;
  cooldown = cooldown;
}

-- `get_mut(key).is_none_or(Circuit::admit)`; the circuit is changed in place.
unfoldable pub admit : ℕ → Text → Breakers → Bool × Breakers
admit now key b = elim (lookup key b.circuits) [
  | none ↦ (true, b)
  | some c ↦
      let (answer, c') = Single.admit now c in
      (answer, record b { circuits = insert key c' b.circuits })
]

unfoldable pub on_success : Text → Breakers → Breakers
on_success key b = elim (lookup key b.circuits) [
  | none ↦ b
  | some c ↦ record b { circuits = insert key (Single.succeed c) b.circuits }
]

abbrev pub or_default : Option Circuit → Circuit
or_default none = default
or_default (some c) = c

-- `entry(key).or_default().fail(…)`.
unfoldable pub on_failure : ℕ → Text → Breakers → Breakers
on_failure now key b = record b {
  circuits =
      insert key
        (Single.fail b.failure_threshold b.cooldown now (or_default (lookup key b.circuits)))
        b.circuits;
}

abbrev name_of : ℕ → Option ℕ → Text
name_of now none = txt "closed"
name_of now (some until) = if ltb now until then txt "open" else txt "half_open"

unfoldable pub state_name : ℕ → Text → Breakers → Text
state_name now key b = elim (lookup key b.circuits) [
  | none ↦ txt "closed"
  | some c ↦ name_of now c.open_until
]

-- One call of a method, with the time at which it is made.
pub data Event : Type 0 where
  ask : ℕ → Text → Event
  answered : Text → Event
  failed : ℕ → Text → Event

unfoldable pub call : Event → Breakers → Breakers
unfolding admit on_success on_failure
call (ask now key) b = (admit now key b).1
call (answered key) b = on_success key b
call (failed now key) b = on_failure now key b

-- The calls of all threads, in the order in which they take the lock.
unfoldable pub run : List Event → Breakers → Breakers
run [] b = b
run (ev ∷ evs) b = run evs (call ev b)
