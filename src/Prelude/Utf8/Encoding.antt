-- ===== src/Prelude/Utf8/Encoding.antt =====
-- `String::as_bytes` and `str::from_utf8`: a text is a list of code points, and a byte is a number
-- below 256. The decoder keeps the bytes of the character that is not yet complete.
use Prim.Native.Nat.{ℕ, ◌+◌, ◌-◌, ◌*◌, ◌/◌, ◌%◌, ◌≤◌, ◌<◌}
use mathlib.Core.Path.{◌≡◌, refl}
use mathlib.Core.Logic.{◌⊎◌, inl, inr}
use mathlib.Core.Bool.{Bool, ◌&&◌, ◌||◌}
use mathlib.Core.Option.{Option, none, some}
use mathlib.Core.List.{List, [], ◌∷◌, ◌++◌, append_assoc}
use native.Mathlib.Omega.{arith}
use cce.Prelude.Tests.{Option-cases, leb, ltb, if◌then◌else◌}
use cce.Prelude.Lists.{All, All-append}
use cce.Prelude.Bytes.{IsByte}
use cce.Prelude.Strings.{Text}

-- A Unicode scalar value.
abbrev pub IsScalar : ℕ → Type 0
IsScalar c = (c < 0xd800) ⊎ ((0xe000 ≤ c) × (c < 0x11_0000))

unfoldable pub char_bytes : ℕ → List ℕ
char_bytes c =
    if ltb c 0x80
    then c ∷ []
    else (if ltb c 0x800
        then (0xc0 + c / 64) ∷ (0x80 + c % 64) ∷ []
        else (if ltb c 0x1_0000
            then (0xe0 + c / 4096) ∷ (0x80 + c / 64 % 64) ∷ (0x80 + c % 64) ∷ []
            else (0xf0 + c / 262144)
              ∷ (0x80 + c / 4096 % 64)
              ∷ (0x80 + c / 64 % 64)
              ∷ (0x80 + c % 64)
              ∷ []))

unfoldable pub as_bytes : Text → List ℕ
as_bytes [] = []
as_bytes (c ∷ s) = char_bytes c ++ as_bytes s

pub data Step : Type 0 where
  invalid : Step
  more : List ℕ → Step
  complete : ℕ → Step

abbrev is_continuation : ℕ → Bool
is_continuation b = leb 0x80 b && ltb b 0xc0

-- Not written in fewer bytes, no surrogate and in Unicode's range.
scalar_from : ℕ → ℕ → Step
scalar_from least c =
    if leb least c && (ltb c 0xd800 || (leb 0xe000 c && ltb c 0x11_0000))
    then complete c
    else invalid

unfoldable pub step : List ℕ → ℕ → Step
unfolding scalar_from
step [] b =
    if ltb b 0x80 then complete b else (if leb 0xc0 b && ltb b 0xf8 then more (b ∷ []) else invalid)
step (a ∷ []) b =
    if is_continuation b
    then (if ltb a 0xe0 then scalar_from 0x80 ((a - 0xc0) * 64 + (b - 0x80)) else more (a ∷ b ∷ []))
    else invalid
step (a ∷ b ∷ []) c =
    if is_continuation c
    then (if ltb a 0xf0
        then scalar_from 0x800 ((a - 0xe0) * 4096 + (b - 0x80) * 64 + (c - 0x80))
        else more (a ∷ b ∷ c ∷ []))
    else invalid
step (a ∷ b ∷ c ∷ []) d =
    if is_continuation d
    then scalar_from 0x1_0000
        ((a - 0xf0) * 262144 + (b - 0x80) * 4096 + (c - 0x80) * 64 + (d - 0x80))
    else invalid
step _ _ = invalid

abbrev prepend : ℕ → Option Text → Option Text
prepend c none = none
prepend c (some s) = some (c ∷ s)

Step-cases :
    (t : Step) → (t ≡ invalid) ⊎ (((p : List ℕ) × (t ≡ more p)) ⊎ ((c : ℕ) × (t ≡ complete c)))
Step-cases invalid = inl refl
Step-cases (more p) = inr (inl (p, refl))
Step-cases (complete c) = inr (inr (c, refl))

unfoldable pub scan : List ℕ → List ℕ → Option Text
scan [] [] = some []
scan [] (a ∷ pending) = none
scan (b ∷ bs) pending = elim (step pending b) [
  | invalid ↦ none
  | more pending' ↦ scan bs pending'
  | complete c ↦ prepend c (scan bs [])
]

unfoldable pub from_utf8 : List ℕ → Option Text
unfolding scan
from_utf8 bs = scan bs []

scan-char_bytes :
    (c : ℕ) (bs : List ℕ) → IsScalar c → scan (char_bytes c ++ bs) [] ≡ prepend c (scan bs [])
unfolding scan char_bytes step scalar_from
scan-char_bytes c bs h = ground arith

pub from_utf8-as_bytes : (s : Text) → All IsScalar s → from_utf8 (as_bytes s) ≡ some s
unfolding from_utf8 as_bytes scan
from_utf8-as_bytes [] h = refl
from_utf8-as_bytes (c ∷ s) (hc, h) =
    rw (scan-char_bytes c (as_bytes s) hc, from_utf8-as_bytes s h) refl

char_bytes-IsByte : (c : ℕ) → IsScalar c → All IsByte (char_bytes c)
unfolding char_bytes
char_bytes-IsByte c h = ground arith

pub as_bytes-IsByte : (s : Text) → All IsScalar s → All IsByte (as_bytes s)
unfolding as_bytes
as_bytes-IsByte [] h = tt
as_bytes-IsByte (c ∷ s) (hc, h) =
    All-append IsByte (char_bytes c) (as_bytes s) (char_bytes-IsByte c hc) (as_bytes-IsByte s h)

-- The bytes of a character that is not yet complete.
IsPending : List ℕ → Type 0
IsPending [] = Unit
IsPending (a ∷ []) = (0xc0 ≤ a) × (a < 0xf8)
IsPending (a ∷ b ∷ []) = (0xe0 ≤ a) × (a < 0xf8) × (0x80 ≤ b) × (b < 0xc0)
IsPending (a ∷ b ∷ c ∷ []) =
    (0xf0 ≤ a) × (a < 0xf8) × (0x80 ≤ b) × (b < 0xc0) × (0x80 ≤ c) × (c < 0xc0)
IsPending _ = ⊥

step-complete :
    (pending : List ℕ) (b c : ℕ)
    → IsPending pending
    → step pending b ≡ complete c
    → IsScalar c × (char_bytes c ≡ pending ++ (b ∷ []))
unfolding step scalar_from char_bytes IsPending
step-complete [] b c p h = ground arith
step-complete (a ∷ []) b c p h = ground arith
step-complete (a ∷ b ∷ []) d c p h = ground arith
step-complete (a ∷ b ∷ e ∷ []) d c p h = ground arith
step-complete _ b c p h = absurd p

step-more :
    (pending : List ℕ) (b : ℕ) (pending' : List ℕ)
    → IsPending pending
    → step pending b ≡ more pending'
    → IsPending pending' × (pending' ≡ pending ++ (b ∷ []))
unfolding step scalar_from IsPending
step-more [] b p' p h = ground arith
step-more (a ∷ []) b p' p h = ground arith
step-more (a ∷ b ∷ []) d p' p h = ground arith
step-more (a ∷ b ∷ e ∷ []) d p' p h = ground arith
step-more _ b p' p h = absurd p

scan-canonical :
    (bs pending : List ℕ) (s : Text)
    → IsPending pending
    → scan bs pending ≡ some s
    → All IsScalar s × (as_bytes s ≡ pending ++ bs)
unfolding scan as_bytes IsPending
scan-canonical [] [] s p h = ground arith
scan-canonical [] (a ∷ pending) s p h = cc
scan-canonical (b ∷ bs) pending s p h = elim (Step-cases (step pending b)) [
  | inl e ↦ cc (rw (e, scan) at h)
  | inr (inl (pending', e)) ↦ ground (
    arith,
    scan-canonical bs pending' s,
    step-more pending b pending' p e,
    rw (e, scan) at h,
    append_assoc pending (b ∷ []) bs,
  )
  | inr (inr (c, e)) ↦ elim (Option-cases (scan bs [])) [
    | inl n ↦ cc (rw (e, n, scan) at h)
    | inr (s', m) ↦ ground (
      arith,
      scan-canonical bs [] s' tt m,
      step-complete pending b c p e,
      rw (e, m, scan) at h,
      append_assoc pending (b ∷ []) bs,
    )
  ]
]

-- A text that is read from bytes encodes to those bytes.
pub as_bytes-from_utf8 :
    (bs : List ℕ) (s : Text) → from_utf8 bs ≡ some s → All IsScalar s × (as_bytes s ≡ bs)
unfolding from_utf8 IsPending
as_bytes-from_utf8 bs s h = scan-canonical bs [] s tt h
