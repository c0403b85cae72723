-- ===== src/Gateway/Tests/BreakerRuns.antt =====
-- Runs of apps/gateway/src/breaker.rs.
use cce.Prelude.{
  ◌≡◌, refl, false, some, List, [], ◌∷◌, ◌++◌, Text, txt, text_eq, ◌↔◌, ◌<◌, arith, min,
}
use cce.Prelude.Strings.{list_beq}
use cce.Prelude.Map.{lookup, insert, remove}
use cce.Gateway.Breaker.Single
use cce.Gateway.Breaker.Single.{Circuit, u32_max}
use cce.Gateway.Breaker.{
  Event, ask, answered, failed, run, call, new, admit, on_success, on_failure, state_name,
  or_default,
}
use cce.Gateway.Breaker.Isolation.{turn, turns, lookup-run}
use cce.Gateway.Breaker.Probe.{single_probe}
use cce.Gateway.Breaker.Cooldown.{refused_while_open}
use cce.Gateway.Breaker.Threshold.{closed_iff_below_threshold}
use cce.Gateway.Breaker.Sound.{IsSound, run-IsSound}

program : Unit {0}
unfolding new admit on_success on_failure state_name call run turn turns Single.admit Single.succeed
    Single.fail lookup insert remove list_beq
program = tt

abbrev a : Text
a = txt "a"

-- Two failures at times 10 and 11 with threshold 2 and cooldown 5.
abbrev outage : List Event
outage = failed 10 a ∷ failed 11 a ∷ []

abbrev tripped : Circuit
tripped = record { failures = 2; open_until = some 16; probing = false }

states :
    (state_name 12 a (run outage (new 2 5)) ≡ txt "open")
    × (state_name 16 a (run outage (new 2 5)) ≡ txt "half_open")
    × (state_name 20 a (run (outage ++ answered a ∷ []) (new 2 5)) ≡ txt "closed")
unfolding program
states = (refl, refl, refl)

lookup-run_example :
    lookup a (run outage (new 2 5)).circuits ≡ turns 2 5 a outage (lookup a (new 2 5).circuits)
unfolding program
lookup-run_example = lookup-run a outage (new 2 5)

abbrev others : List Event
others = ask 17 a ∷ failed 17 (txt "b") ∷ []

single_probe_example : (admit 18 a (run others (admit 16 a (run outage (new 2 5))).1)).0 ≡ false
unfolding program
single_probe_example =
    single_probe (run outage (new 2 5)) a tripped 16 18 others refl refl refl (refl, tt)

refused_while_open_example :
    (admit 15 a (run others (on_failure 11 a (run (failed 10 a ∷ []) (new 2 5))))).0 ≡ false
unfolding program
refused_while_open_example =
    refused_while_open (run (failed 10 a ∷ []) (new 2 5)) a tripped 11 15 others refl refl
      (refl, tt) (omega arith)

closed_iff_below_threshold_example :
    let b = run (outage ++ answered a ∷ failed 12 a ∷ []) (new 2 5) in
    ((state_name 12 a b ≡ txt "closed") ↔ (1 < 2))
    × ((or_default (lookup a b.circuits)).failures ≡ min 1 u32_max)
unfolding program
closed_iff_below_threshold_example =
    closed_iff_below_threshold 2 5 12 a outage (failed 12 a ∷ []) (omega arith) (omega arith) tt

run-IsSound_example : IsSound 2 tripped
unfolding program
run-IsSound_example = run-IsSound 2 5 outage a tripped refl
