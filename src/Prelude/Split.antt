-- ===== src/Prelude/Split.antt =====
-- `str::split` at one character, and `join`.
use Prim.Native.Nat.{ℕ}
use mathlib.Core.Path.{◌≡◌, refl, ap, ◌∙◌}
use mathlib.Core.Logic.{◌≢◌, inl, inr}
use mathlib.Core.Bool.{Bool, false}
use mathlib.Core.List.{List, [], ◌∷◌, ◌++◌}
use native.Mathlib.Omega.{arith}
use cce.Prelude.Tests.{◌==◌, nat_eq, if◌then◌else◌, Bool-cases}
use cce.Prelude.Lists.{All}
use cce.Prelude.Strings.{Text}

abbrev pub push_head : ℕ → List Text → List Text
push_head c [] = (c ∷ []) ∷ []
push_head c (p ∷ ps) = (c ∷ p) ∷ ps

-- The pieces between the separators: one more than there are separators.
unfoldable pub split_on : ℕ → Text → List Text
split_on d [] = [] ∷ []
split_on d (c ∷ s) = let rest = split_on d s in if c == d then [] ∷ rest else push_head c rest

-- `str::split` with a test.
unfoldable pub split_where : (ℕ → Bool) → Text → List Text
split_where p [] = [] ∷ []
split_where p (c ∷ s) = let rest = split_where p s in if p c then [] ∷ rest else push_head c rest

unfoldable pub join : Text → List Text → Text
join sep [] = []
join sep (p ∷ []) = p
join sep (p ∷ q ∷ ps) = p ++ (sep ++ join sep (q ∷ ps))

-- The text has no such character.
abbrev pub Lacks : ℕ → Text → Type 0
Lacks d s = All (λ c. (c == d) ≡ false) s

All-push_head :
    (d c : ℕ) (ps : List Text)
    → (c == d) ≡ false
    → All (Lacks d) ps
    → All (Lacks d) (push_head c ps)
All-push_head d c [] h k = ((h, tt), tt)
All-push_head d c (p ∷ ps) h (k, ks) = ((h, k), ks)

pub split_on-Lacks : (d : ℕ) (s : Text) → All (Lacks d) (split_on d s)
unfolding split_on
split_on-Lacks d [] = (tt, tt)
split_on-Lacks d (c ∷ s) = elim (Bool-cases (c == d)) [
  | inl same ↦ rw same (tt, split_on-Lacks d s)
  | inr other ↦ rw other (All-push_head d c (split_on d s) other (split_on-Lacks d s))
]

pub split_on-one : (d : ℕ) (p : Text) → Lacks d p → split_on d p ≡ p ∷ []
unfolding split_on
split_on-one d [] h = refl
split_on-one d (c ∷ p) (h, hs) = rw (h, split_on-one d p hs)

pub split_on-append :
    (d : ℕ) (p s : Text) → Lacks d p → split_on d (p ++ (d ∷ s)) ≡ p ∷ split_on d s
unfolding split_on
split_on-append d [] s h = ground arith
split_on-append d (c ∷ p) s (h, hs) = rw (h, split_on-append d p s hs)

-- Joining pieces and splitting the result gives the pieces back.
pub split_on-join :
    (d : ℕ) (ps : List Text) → ps ≢ [] → All (Lacks d) ps → split_on d (join (d ∷ []) ps) ≡ ps
unfolding join
split_on-join d [] ne h = absurd (ne refl)
split_on-join d (p ∷ []) ne (h, hs) = split_on-one d p h
split_on-join d (p ∷ q ∷ ps) ne (h, hs) =
    split_on-append d p (join (d ∷ []) (q ∷ ps)) h
    ∙ ap (λ (r : List Text). p ∷ r) (split_on-join d (q ∷ ps) (λ e. cc) hs)

push_head-cons :
    (c : ℕ) (ps : List Text) → (p : Text) × (qs : List Text) × (push_head c ps ≡ (c ∷ p) ∷ qs)
push_head-cons c [] = ([], [], refl)
push_head-cons c (p ∷ ps) = (p, ps, refl)

pub split_on-head :
    (d c : ℕ) (s : Text)
    → (c == d) ≡ false
    → (p : Text) × (qs : List Text) × (split_on d (c ∷ s) ≡ (c ∷ p) ∷ qs)
unfolding split_on
split_on-head d c s h = rw h (push_head-cons c (split_on d s))

push_head-All {κ} :
    (P : ℕ → Type κ) (c : ℕ) (ps : List Text) → P c → All (All P) ps → All (All P) (push_head c ps)
push_head-All P c [] h hs = ((h, tt), tt)
push_head-All P c (p ∷ ps) h (hp, hs) = ((h, hp), hs)

-- What holds of all characters holds of those of each piece.
pub split_on-All {κ} : (P : ℕ → Type κ) (d : ℕ) (s : Text) → All P s → All (All P) (split_on d s)
unfolding split_on
split_on-All P d [] h = (tt, tt)
split_on-All P d (c ∷ s) (h, hs) = elim (Bool-cases (c == d)) [
  | inl same ↦ rw same (tt, split_on-All P d s hs)
  | inr other ↦ rw other (push_head-All P c (split_on d s) h (split_on-All P d s hs))
]
