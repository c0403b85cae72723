-- ===== src/Engine/Diff/Counts.antt =====
-- No matched line of a file is lost from the counts.
use cce.Prelude.{
  ℕ, ◌+◌, ◌-◌, min, ◌≡◌, Bool, none, List, [], ◌∷◌, Text, text_eq, arith, length, count, leb,
  eq_refl, length-append, Bool-cases, inl, inr, if◌then◌else◌, refl,
}
use cce.Prelude.Map.{lookup, lookup-insert}
use cce.Engine.Diff.{DiffMatch, FileMatches, push_match, record_match, or_default}
use cce.Engine.Diff.Numbers.{record_all}

abbrev pub section_of : Text → List (Text × FileMatches) → FileMatches
section_of path sections = or_default (lookup path sections)

record Counted (n : ℕ) (f : FileMatches) : Type 0 where
  kept : length f.matches ≡ min 32 n
  rest : f.truncated ≡ n - 32

Counted-push :
    (n : ℕ) (m : DiffMatch) (f : FileMatches) → Counted n f → Counted (n + 1) (push_match m f)
unfolding push_match
Counted-push n m f h = elim (Bool-cases (leb 32 (length f.matches))) [
  | inl full ↦ record {
    kept = ground (arith, full, h.kept, h.rest);
    rest = ground (arith, full, h.kept, h.rest);
  }
  | inr room ↦ record {
    kept = ground (arith, room, h.kept, h.rest, length-append f.matches (m ∷ []));
    rest = ground (arith, room, h.kept, h.rest);
  }
]

pub section-record :
    (is_match : Text → Bool) (path : Text) (m : DiffMatch) (sections : List (Text × FileMatches))
    → section_of path (record_match is_match path m sections) ≡ (
        if is_match m.text
        then push_match m (section_of path sections)
        else section_of path sections)
unfolding record_match
section-record is_match path m sections = elim (Bool-cases (is_match m.text)) [
  | inl hit ↦
      rw
        (
          hit,
          lookup-insert path path (push_match m (section_of path sections)) sections,
          eq_refl path,
        )
        refl
  | inr miss ↦ rw miss refl
]

Counted-record :
    (n : ℕ) (is_match : Text → Bool) (path : Text) (m : DiffMatch)
    (sections : List (Text × FileMatches))
    → Counted n (section_of path sections)
    → Counted
        (if is_match m.text then n + 1 else n)
        (section_of path (record_match is_match path m sections))
Counted-record n is_match path m sections h = elim (Bool-cases (is_match m.text)) [
  | inl hit ↦ rw (section-record, hit) (Counted-push n m (section_of path sections) h)
  | inr miss ↦ rw (section-record, miss) h
]

Counted-all :
    (n : ℕ) (is_match : Text → Bool) (path : Text) (ms : List DiffMatch)
    (sections : List (Text × FileMatches))
    → Counted n (section_of path sections)
    → Counted
        (n + count (λ (m : DiffMatch). is_match m.text) ms)
        (section_of path (record_all is_match path ms sections))
unfolding record_all
Counted-all n is_match path [] sections h = record {
  kept = omega (arith, h.kept);
  rest = omega (arith, h.rest);
}
Counted-all n is_match path (m ∷ ms) sections h =
    let r =
      Counted-all (if is_match m.text then n + 1 else n) is_match path ms
        (record_match is_match path m sections) (Counted-record n is_match path m sections h) in
    record { kept = ground (arith, r.kept); rest = ground (arith, r.rest) }

-- Of the changed lines of a file that had no section yet, those that match are kept as long as
-- they are no more than 32; of more, exactly 32 are kept, and all others are counted as truncated.
pub matched_lines_are_counted :
    (is_match : Text → Bool) (path : Text) (ms : List DiffMatch)
    (sections : List (Text × FileMatches))
    → lookup path sections ≡ none
    → let f = section_of path (record_all is_match path ms sections) in
      let n = count (λ (m : DiffMatch). is_match m.text) ms in
      (length f.matches ≡ min 32 n) × (f.truncated ≡ n - 32)
matched_lines_are_counted is_match path ms sections h =
    let start : Counted 0 (section_of path sections) =
      rw h (record { kept = omega arith; rest = omega arith }) in
    let r = Counted-all 0 is_match path ms sections start in
    (omega (arith, r.kept), omega (arith, r.rest))
