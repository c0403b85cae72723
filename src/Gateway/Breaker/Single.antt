-- ===== src/Gateway/Breaker/Single.antt =====
-- `Circuit` of apps/gateway/src/breaker.rs: the state of one worker's circuit. An `Instant` is a
-- natural number, and the value that `Instant::now()` returns is an argument.
use cce.Prelude.{
  ℕ, ◌+◌, ◌-◌, ◌^◌, min, Bool, true, false, ◌||◌, Option, none, some, ltb, leb, if◌then◌else◌,
}

pub record Circuit : Type 0 where
  pub failures : ℕ  -- u32
  pub open_until : Option ℕ
  pub probing : Bool

-- `Circuit::default()`.
abbrev pub default : Circuit
default = record { failures = 0; open_until = none; probing = false }

abbrev pub u32_max : ℕ
u32_max = 2 ^ 32 - 1

-- `u32::saturating_add(n, 1)`.
abbrev pub saturating_suc : ℕ → ℕ
saturating_suc n = min (n + 1) u32_max

admit_at : Option ℕ → ℕ → Circuit → Bool × Circuit
admit_at none now c = (true, c)
admit_at (some until) now c =
    if ltb now until
    then (false, c)
    else (if c.probing then (false, c) else (true, record c { probing = true }))

unfoldable pub admit : ℕ → Circuit → Bool × Circuit
unfolding admit_at
admit now c = admit_at c.open_until now c

unfoldable pub succeed : Circuit → Circuit
succeed c = record c { failures = 0; open_until = none; probing = false }

abbrev pub is_some : Option ℕ → Bool
is_some none = false
is_some (some _) = true

unfoldable pub fail : ℕ → ℕ → ℕ → Circuit → Circuit
fail threshold cooldown now c =
    let d = record c { failures = saturating_suc c.failures; probing = false } in
    if is_some d.open_until || leb threshold d.failures
    then record d { open_until = some (now + cooldown) }
    else d
