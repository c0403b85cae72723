-- ===== src/Engine/Diff/Numbers.antt =====
-- The line numbers and the texts that a hunk's changed lines are recorded with.
use mathlib.Core.Path.{ap₂}
use cce.Prelude.{
  ℕ, suc, ◌+◌, ◌<◌, ◌^◌, ◌≡◌, ◌∙◌, ap, refl, Bool, true, false, List, [], ◌∷◌, map, Text, txt,
  text_eq, nat_eq, All, arith, length,
}
use cce.Prelude.Trim.{starts_with}
use cce.Engine.Diff.{
  DiffMatch, FileMatches, Scan, suc_u32, strip_prefix, record_match, body_line, scan_line,
  scan_lines,
}

-- A line of a hunk, as a reader of the patch means it.
pub data Body : Type 0 where
  context added removed : Text → Body

abbrev pub print : Body → Text
print (context t) = b' ' ∷ t
print (added t) = b'+' ∷ t
print (removed t) = b'-' ∷ t

-- The printed line does not read as the header of a file.
abbrev pub IsPlain : Body → Type 0
IsPlain (context t) = Unit
IsPlain (added t) = starts_with (txt "++ ") t ≡ false
IsPlain (removed t) = starts_with (txt "-- ") t ≡ false

-- The changed lines with their numbers, in the old image or the new one.
abbrev pub numbered : ℕ → ℕ → List Body → List DiffMatch
numbered old new [] = []
numbered old new (context t ∷ body) = numbered (suc old) (suc new) body
numbered old new (added t ∷ body) =
    (record { line = new; added = true; text = t }) ∷ numbered old (suc new) body
numbered old new (removed t ∷ body) =
    (record { line = old; added = false; text = t }) ∷ numbered (suc old) new body

unfoldable pub record_all :
    (Text → Bool) → Text → List DiffMatch → List (Text × FileMatches) → List (Text × FileMatches)
record_all is_match path [] sections = sections
record_all is_match path (m ∷ ms) sections =
    record_all is_match path ms (record_match is_match path m sections)

suc_u32-small : (n : ℕ) → n + 1 < 2 ^ 32 → suc_u32 n ≡ suc n
suc_u32-small n h = omega arith

scan-context :
    (is_match : Text → Bool) (t : Text) (st : Scan)
    → st.old_line + 1 < 2 ^ 32
    → st.new_line + 1 < 2 ^ 32
    → scan_line is_match (print (context t)) st
      ≡ record st { old_line = suc st.old_line; new_line = suc st.new_line }
unfolding scan_line strip_prefix starts_with body_line
scan-context is_match t st o n =
    ap₂ (λ (i j : ℕ). record st { old_line = i; new_line = j }) (suc_u32-small st.old_line o)
      (suc_u32-small st.new_line n)

abbrev push_added : (Text → Bool) → Text → Scan → Scan
push_added is_match t st = record st {
  new_line = suc st.new_line;
  sections =
      record_match is_match st.path (record { line = st.new_line; added = true; text = t })
        st.sections;
}

abbrev push_removed : (Text → Bool) → Text → Scan → Scan
push_removed is_match t st = record st {
  old_line = suc st.old_line;
  sections =
      record_match is_match st.path (record { line = st.old_line; added = false; text = t })
        st.sections;
}

scan-added :
    (is_match : Text → Bool) (t : Text) (st : Scan)
    → starts_with (txt "++ ") t ≡ false
    → st.new_line + 1 < 2 ^ 32
    → scan_line is_match (print (added t)) st ≡ push_added is_match t st
unfolding scan_line strip_prefix starts_with body_line
scan-added is_match t st h n = rw h (
    ap (λ (i : ℕ). record (push_added is_match t st) { new_line = i })
      (suc_u32-small st.new_line n))

scan-removed :
    (is_match : Text → Bool) (t : Text) (st : Scan)
    → starts_with (txt "-- ") t ≡ false
    → st.old_line + 1 < 2 ^ 32
    → scan_line is_match (print (removed t)) st ≡ push_removed is_match t st
unfolding scan_line strip_prefix starts_with body_line
scan-removed is_match t st h o = rw h (
    ap (λ (i : ℕ). record (push_removed is_match t st) { old_line = i })
      (suc_u32-small st.old_line o))

-- A hunk none of whose added lines starts with `++ ` and none of whose removed lines starts with
-- `-- `, in a file with line numbers below 2^32, is scanned as its changed lines, recorded one after
-- the other with their line numbers in the new image or in the old one.
pub scan_lines-hunk :
    (is_match : Text → Bool) (body : List Body) (st : Scan)
    → All IsPlain body
    → st.old_line + length body < 2 ^ 32
    → st.new_line + length body < 2 ^ 32
    → (scan_lines is_match (map print body) st).sections
      ≡ record_all is_match st.path (numbered st.old_line st.new_line body) st.sections
unfolding scan_lines record_all
scan_lines-hunk is_match [] st h o n = refl
scan_lines-hunk is_match (context t ∷ body) st (h, hs) o n =
    ap (λ (s : Scan). (scan_lines is_match (map print body) s).sections)
      (scan-context is_match t st (omega arith) (omega arith))
    ∙ scan_lines-hunk is_match body
        (record st { old_line = suc st.old_line; new_line = suc st.new_line }) hs (omega arith)
        (omega arith)
scan_lines-hunk is_match (added t ∷ body) st (h, hs) o n =
    ap (λ (s : Scan). (scan_lines is_match (map print body) s).sections)
      (scan-added is_match t st h (omega arith))
    ∙ scan_lines-hunk is_match body (push_added is_match t st) hs (omega arith) (omega arith)
scan_lines-hunk is_match (removed t ∷ body) st (h, hs) o n =
    ap (λ (s : Scan). (scan_lines is_match (map print body) s).sections)
      (scan-removed is_match t st h (omega arith))
    ∙ scan_lines-hunk is_match body (push_removed is_match t st) hs (omega arith) (omega arith)
