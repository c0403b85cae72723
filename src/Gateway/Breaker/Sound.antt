-- ===== src/Gateway/Breaker/Sound.antt =====
-- What holds of every circuit of a registry, whatever calls were made.
use cce.Prelude.{
  ℕ, ◌≤◌, ◌<◌, ◌≡◌, true, false, Option, none, some, List, [], ◌∷◌, Text, text_eq, arith, max, ◌==◌,
  Bool-cases, inl, inr, subst, sym, ◌∙◌,
}
use cce.Prelude.Map.{lookup}
use cce.Gateway.Breaker.Single
use cce.Gateway.Breaker.Single.{Circuit, is_some, u32_max}
use cce.Gateway.Breaker.{Event, ask, answered, failed, run, new}
use cce.Gateway.Breaker.Isolation.{turn, turns, turn_at, key_of, lookup-run}

pub record IsSound (th : ℕ) (c : Circuit) : Type 0 where
  pub fits : c.failures ≤ u32_max
  pub probe_open : c.probing ≡ true → is_some c.open_until ≡ true
  pub closed_below : is_some c.open_until ≡ false → c.failures < max th 1

abbrev AllSound : ℕ → Option Circuit → Type 0
AllSound th none = Unit
AllSound th (some c) = IsSound th c

AllSound-turn :
    (th cd : ℕ) (ev : Event) (o : Option Circuit) → AllSound th o → AllSound th (turn th cd ev o)
unfolding turn Single.admit Single.succeed Single.fail
AllSound-turn th cd (ask now j) none h = tt
AllSound-turn th cd (ask now j) (some c) h = record {
  fits = ground arith;
  probe_open = ground arith;
  closed_below = ground arith;
}
AllSound-turn th cd (answered j) none h = tt
AllSound-turn th cd (answered j) (some c) h = ground arith
AllSound-turn th cd (failed now j) none h = ground arith
AllSound-turn th cd (failed now j) (some c) h = record {
  fits = ground arith;
  probe_open = ground arith;
  closed_below = ground arith;
}

AllSound-turns :
    (th cd : ℕ) (k : Text) (evs : List Event) (o : Option Circuit)
    → AllSound th o
    → AllSound th (turns th cd k evs o)
unfolding turns
AllSound-turns th cd k [] o h = h
AllSound-turns th cd k (ev ∷ evs) o h =
    AllSound-turns th cd k evs (turn_at th cd k ev o) (elim (Bool-cases (key_of ev == k)) [
      | inl same ↦ rw same (AllSound-turn th cd ev o h)
      | inr other ↦ rw other h
    ])

-- Whatever calls are made on a new registry, in any order and at any times: the failure counter of
-- every circuit stays a `u32`, only an open circuit has a probe in flight, and a closed circuit
-- has counted fewer failures than the threshold (none, where the threshold is 0).
pub run-IsSound :
    (th cd : ℕ) (evs : List Event) (k : Text) (c : Circuit)
    → lookup k (run evs (new th cd)).circuits ≡ some c
    → IsSound th c
unfolding new lookup
run-IsSound th cd evs k c h =
    subst (AllSound th) (sym (lookup-run k evs (new th cd)) ∙ h)
      (AllSound-turns th cd k evs none tt)
