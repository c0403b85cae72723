-- ===== src/Gateway/Fanout/Reports.antt =====
-- What a fan-out call reports to its circuit.
use cce.Prelude.{ℕ, ◌≡◌, Bool, true, false, Option, none, some, text_eq, arith, eq_refl, ◌&&◌, leb}
use cce.Prelude.Map.{lookup, lookup-insert}
use cce.Gateway.Json.{Json}
use cce.Gateway.Breaker
use cce.Gateway.Breaker.Single
use cce.Gateway.Breaker.Single.{Circuit}
use cce.Gateway.Breaker.{Breakers, or_default}
use cce.Gateway.Registry.{RepoEntry}
use cce.Gateway.Fanout.{Upstream, ask_worker}

-- A probe of this worker is in flight.
abbrev pub is_probing : Option Circuit → Bool
is_probing none = false
is_probing (some c) = c.probing

-- The cooldown of an open circuit has passed.
abbrev pub is_due : ℕ → Option Circuit → Bool
is_due now none = false
is_due now (some c) = elim c.open_until [ none ↦ false | some until ↦ leb until now ]

module _ (json : Json) where
  idle_after_success :
      (entry : RepoEntry) (b : Breakers)
      → is_probing (lookup entry.id (Breaker.on_success entry.id b).circuits) ≡ false
  unfolding Breaker.on_success Single.succeed
  idle_after_success entry b = ground (
    arith,
    eq_refl entry.id,
    lookup-insert entry.id entry.id (Single.succeed (or_default (lookup entry.id b.circuits)))
        b.circuits,
  )

  idle_after_failure :
      (now : ℕ) (entry : RepoEntry) (b : Breakers)
      → is_probing (lookup entry.id (Breaker.on_failure now entry.id b).circuits) ≡ false
  unfolding Breaker.on_failure Single.fail
  idle_after_failure now entry b = ground (
    arith,
    eq_refl entry.id,
    lookup-insert entry.id entry.id
        (Single.fail b.failure_threshold b.cooldown now (or_default (lookup entry.id b.circuits)))
        b.circuits,
  )

  refused_changes_nothing :
      (now : ℕ) (entry : RepoEntry) (b : Breakers)
      → is_probing (lookup entry.id b.circuits) ≡ false
      → (Breaker.admit now entry.id b).0 ≡ false
      → is_probing (lookup entry.id (Breaker.admit now entry.id b).1.circuits) ≡ false
  unfolding Breaker.admit Single.admit
  refused_changes_nothing now entry b h r = ground (
    arith,
    eq_refl entry.id,
    lookup-insert entry.id entry.id (or_default (lookup entry.id b.circuits)) b.circuits,
  )

  dropped_claims :
      (now : ℕ) (entry : RepoEntry) (b : Breakers)
      → is_probing (lookup entry.id b.circuits) ≡ false
      → is_probing (lookup entry.id (Breaker.admit now entry.id b).1.circuits)
        ≡ is_due now (lookup entry.id b.circuits)
  unfolding Breaker.admit Single.admit
  dropped_claims now entry b h =
      grind (arith, eq_refl entry.id, λ (c : Circuit). lookup-insert entry.id entry.id c b.circuits)

  -- If no probe of a worker was in flight before a fan-out task for it, then none is after a task
  -- whose call ends (or is not made): without a permit, with an open circuit, by a timeout, a
  -- transport error or any response. A task that is dropped during its call leaves one in flight
  -- exactly if it had a permit and the cooldown of an open circuit had passed when it asked.
  pub ask_worker_releases_probe :
      (permit : Bool) (asked_at ended_at : ℕ) (entry : RepoEntry) (upstream : Upstream json)
      (b : Breakers)
      → is_probing (lookup entry.id b.circuits) ≡ false
      → let after = λ (ending : Option (Upstream json)).
        lookup entry.id (ask_worker json permit asked_at ended_at entry ending b).1.circuits in
        (is_probing (after (some upstream)) ≡ false)
        × (is_probing (after none) ≡ (permit && is_due asked_at (lookup entry.id b.circuits)))
  unfolding ask_worker
  ask_worker_releases_probe false asked_at ended_at entry upstream b h = (h, h)
  ask_worker_releases_probe true asked_at ended_at entry upstream b h =
      let b' = (Breaker.admit asked_at entry.id b).1 in
      (
        ground (
          arith,
          refused_changes_nothing asked_at entry b h,
          idle_after_success entry b',
          idle_after_failure ended_at entry b',
        ),
        ground (arith, dropped_claims asked_at entry b h),
      )
