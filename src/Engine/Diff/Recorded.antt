-- ===== src/Engine/Diff/Recorded.antt =====
-- Which lines of a hunk are recorded, and where.
use mathlib.Core.List.{append_assoc, append-nil}
use cce.Prelude.{
  ℕ, ◌+◌, ◌-◌, ◌≤◌, ◌<◌, ◌^◌, ◌≡◌, ◌∙◌, sym, ap, ap₂, refl, Bool, true, false, List, [], ◌∷◌, ◌++◌,
  map, Text, text_eq, All, arith, length, take, leb, ◌==◌, Bool-cases, inl, inr, take_of_length-le,
  take-append_of_le, length-append,
}
use cce.Prelude.Lists.{keep}
use cce.Prelude.Map.{lookup, lookup-insert}
use cce.Engine.Diff.{DiffMatch, FileMatches, Scan, push_match, record_match, scan_lines, or_default}
use cce.Engine.Diff.Numbers.{Body, IsPlain, print, numbered, record_all, scan_lines-hunk}
use cce.Engine.Diff.Counts.{section_of, section-record}

abbrev pub matching : (Text → Bool) → List DiffMatch → List DiffMatch
matching is_match ms = keep (λ m. is_match m.text) ms

abbrev section : List DiffMatch → ℕ → FileMatches
section matches truncated = record { matches = matches; truncated = truncated }

-- A section with more lines: the first 32 of all, and the number of the others.
abbrev pub with_more : List DiffMatch → FileMatches → FileMatches
with_more more f =
    let all = f.matches ++ more in section (take 32 all) (f.truncated + (length all - 32))

-- A section after some changed lines: those that match are added.
abbrev pub extended : (Text → Bool) → List DiffMatch → FileMatches → FileMatches
extended is_match ms f = with_more (matching is_match ms) f

file_eq : (xs ys : List DiffMatch) (m n : ℕ) → xs ≡ ys → m ≡ n → section xs m ≡ section ys n
file_eq xs ys m n h k = ap₂ section h k

with_more-nil : (f : FileMatches) → length f.matches ≤ 32 → with_more [] f ≡ f
with_more-nil f h =
    file_eq _ _ _ _ (ap (take 32) (append-nil f.matches) ∙ take_of_length-le 32 f.matches h)
      (omega (arith, ap length (append-nil f.matches)))

with_more-push :
    (m : DiffMatch) (rest : List DiffMatch) (f : FileMatches)
    → length f.matches ≤ 32
    → with_more (m ∷ rest) f ≡ with_more rest (push_match m f)
unfolding push_match
with_more-push m rest f h = elim (Bool-cases (leb 32 (length f.matches))) [
  | inl full ↦ rw full (
      file_eq _ _ _ _
        (take-append_of_le 32 f.matches (m ∷ rest) (ground (arith, full))
          ∙ sym (take-append_of_le 32 f.matches rest (ground (arith, full))))
        (ground (arith, full, length-append f.matches (m ∷ rest), length-append f.matches rest)))
  | inr room ↦ rw (room, append_assoc f.matches (m ∷ []) rest) refl
]

module _ (is_match : Text → Bool) where
  matching-hit :
      (m : DiffMatch) (ms : List DiffMatch)
      → is_match m.text ≡ true
      → matching is_match (m ∷ ms) ≡ m ∷ matching is_match ms
  unfolding keep
  matching-hit m ms h = rw h refl

  matching-miss :
      (m : DiffMatch) (ms : List DiffMatch)
      → is_match m.text ≡ false
      → matching is_match (m ∷ ms) ≡ matching is_match ms
  unfolding keep
  matching-miss m ms h = rw h refl

  matching-nil : matching is_match [] ≡ []
  unfolding keep
  matching-nil = refl

  length-push :
      (m : DiffMatch) (f : FileMatches)
      → length f.matches ≤ 32
      → length (push_match m f).matches ≤ 32
  unfolding push_match
  length-push m f h = ground (arith, length-append f.matches (m ∷ []))

  section-all :
      (path : Text) (ms : List DiffMatch) (sections : List (Text × FileMatches))
      → length (section_of path sections).matches ≤ 32
      → section_of path (record_all is_match path ms sections)
        ≡ extended is_match ms (section_of path sections)
  unfolding record_all
  section-all path [] sections h =
      rw matching-nil (sym (with_more-nil (section_of path sections) h))
  section-all path (m ∷ ms) sections h = elim (Bool-cases (is_match m.text)) [
    | inl hit ↦
        let one : section_of path (record_match is_match path m sections)
            ≡ push_match m (section_of path sections) =
          section-record is_match path m sections ∙ rw hit refl in
        section-all path ms (record_match is_match path m sections)
          (rw one (length-push m (section_of path sections) h))
        ∙ ap (extended is_match ms) one
        ∙ sym (with_more-push m (matching is_match ms) (section_of path sections) h)
        ∙ ap (λ more. with_more more (section_of path sections)) (sym (matching-hit m ms hit))
    | inr miss ↦
        let one : section_of path (record_match is_match path m sections)
            ≡ section_of path sections =
          section-record is_match path m sections ∙ rw miss refl in
        section-all path ms (record_match is_match path m sections) (rw one h)
        ∙ ap (extended is_match ms) one
        ∙ ap (λ more. with_more more (section_of path sections)) (sym (matching-miss m ms miss))
  ]

  lookup-record :
      (path q : Text) (m : DiffMatch) (sections : List (Text × FileMatches))
      → (path == q) ≡ false
      → lookup q (record_match is_match path m sections) ≡ lookup q sections
  unfolding record_match
  lookup-record path q m sections ne = elim (Bool-cases (is_match m.text)) [
    | inl hit ↦ rw hit (
        lookup-insert path q (push_match m (or_default (lookup path sections))) sections
        ∙ rw ne refl)
    | inr miss ↦ rw miss refl
  ]

  lookup-all :
      (path q : Text) (ms : List DiffMatch) (sections : List (Text × FileMatches))
      → (path == q) ≡ false
      → lookup q (record_all is_match path ms sections) ≡ lookup q sections
  unfolding record_all
  lookup-all path q [] sections ne = refl
  lookup-all path q (m ∷ ms) sections ne =
      lookup-all path q ms (record_match is_match path m sections) ne
      ∙ lookup-record path q m sections ne

-- A hunk none of whose added lines starts with `++ ` and none of whose removed lines starts with
-- `-- `, in a file with line numbers below 2^32 and at most 32 lines kept so far: the section of the
-- current file is extended, in their order, by the changed lines that match, each with its own text,
-- whether it was added, and its line number in the new image or in the old one, as far as 32 lines
-- are kept; the others are counted. The sections of all other files stay as they are.
pub hunk_lines_are_numbered :
    (is_match : Text → Bool) (body : List Body) (st : Scan)
    → All IsPlain body
    → st.old_line + length body < 2 ^ 32
    → st.new_line + length body < 2 ^ 32
    → length (section_of st.path st.sections).matches ≤ 32
    → let after = (scan_lines is_match (map print body) st).sections in
      (section_of st.path after
        ≡ extended is_match
            (numbered st.old_line st.new_line body)
            (section_of st.path st.sections))
      × ((q : Text) → (st.path == q) ≡ false → lookup q after ≡ lookup q st.sections)
hunk_lines_are_numbered is_match body st plain o n h =
    let ms = numbered st.old_line st.new_line body in
    rw (scan_lines-hunk is_match body st plain o n) (
      section-all is_match st.path ms st.sections h,
      λ q ne. lookup-all is_match st.path q ms st.sections ne,
    )
