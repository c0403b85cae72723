-- ===== src/Engine/Diff.antt =====
-- The patch scanner of crates/cce-engine/src/diff.rs. The regular expression is the test that it
-- makes of a text.
pub mod Numbers
pub mod Counts
pub mod Recorded
use cce.Prelude.{
  ℕ, suc, ◌+◌, ◌*◌, ◌-◌, ◌%◌, ◌^◌, Bool, true, false, not, ◌&&◌, ◌||◌, Option, none, some, List, [],
  ◌∷◌, ◌++◌, Text, txt, text_eq, nat_eq, ◌==◌, ltb, leb, if◌then◌else◌, length, is_ascii_digit,
}
use cce.Prelude.Lists.{any, keep}
use cce.Prelude.Map.{lookup, insert}
use cce.Prelude.Split.{split_on}
use cce.Prelude.Trim.{is_empty, starts_with}
use cce.Prelude.Words.{is_whitespace}
use cce.Prelude.Split.{split_where}

pub record DiffMatch : Type 0 where
  pub line : ℕ
  pub added : Bool
  pub text : Text

pub record FileMatches : Type 0 where
  pub matches : List DiffMatch
  pub truncated : ℕ

abbrev pub no_matches : FileMatches
no_matches = record { matches = []; truncated = 0 }

abbrev pub max_matched_lines_per_file : ℕ
max_matched_lines_per_file = 32

-- The variables of `scan_patch`.
pub record Scan : Type 0 where
  pub sections : List (Text × FileMatches)
  pub path : Text
  pub old_line : ℕ  -- u32
  pub new_line : ℕ  -- u32

abbrev pub suc_u32 : ℕ → ℕ
suc_u32 n = (n + 1) % 2 ^ 32

abbrev strip : Text → Text → Option Text
strip [] s = some s
strip (c ∷ p) [] = none
strip (c ∷ p) (d ∷ s) = let rest = strip p s in if c == d then rest else none

-- `str::strip_prefix`.
unfoldable pub strip_prefix : Text → Text → Option Text
strip_prefix p s = strip p s

unfoldable pub split_whitespace : Text → List Text
split_whitespace s = keep (λ piece. not (is_empty piece)) (split_where is_whitespace s)

abbrev last_or : Text → List Text → Text
last_or t [] = t
last_or t (u ∷ us) = last_or u us

abbrev or_nothing : Option Text → Text
or_nothing none = []
or_nothing (some t) = t

unfoldable pub path_from : Text → Text
path_from rest = or_nothing (strip_prefix (txt "b/") (last_or [] (split_whitespace rest)))

abbrev digits_value : ℕ → Text → ℕ
digits_value acc [] = acc
digits_value acc (c ∷ s) = digits_value (acc * 10 + (c - b'0')) s

abbrev digits_of : Text → Text
digits_of [] = []
digits_of (c ∷ s) = if c == b'+' then s else c ∷ s

-- `parse::<u32>().ok()`: a sign `+` is allowed.
unfoldable pub parse_u32 : Text → Option ℕ
parse_u32 s =
    let ds = digits_of s in
    let value = digits_value 0 ds in
    if is_empty ds || any (λ c. not (is_ascii_digit c)) ds || leb (2 ^ 32) value
    then none
    else some value

abbrev first_of : List Text → Text
first_of [] = []
first_of (p ∷ ps) = p

-- `rest.split(',').next()?.parse().ok()`.
unfoldable pub range_start : Text → Option ℕ
range_start rest = parse_u32 (first_of (split_on b',' rest))

-- The loop over the tokens, with `old` and `new`.
unfoldable pub header_tokens : List Text → Option ℕ × Option ℕ → Option ℕ × Option ℕ
header_tokens [] found = found
header_tokens (token ∷ tokens) (old, new) =
    header_tokens tokens (elim (strip_prefix (txt "-") token) [
      | some rest ↦ (range_start rest, new)
      | none ↦ elim (strip_prefix (txt "+") token) [
        | some rest ↦ (old, range_start rest)
        | none ↦ (old, new)
      ]
    ])

abbrev pub both : Option ℕ × Option ℕ → Option (ℕ × ℕ)
both (some old, some new) = some (old, new)
both (some old, none) = none
both (none, new) = none

unfoldable pub parse_hunk_header : Text → Option (ℕ × ℕ)
parse_hunk_header header = both (header_tokens (split_whitespace header) (none, none))

abbrev pub or_default : Option FileMatches → FileMatches
or_default none = no_matches
or_default (some section) = section

-- A matched line goes to its file's section, or is counted once the section is full.
unfoldable pub push_match : DiffMatch → FileMatches → FileMatches
push_match m section =
    if leb max_matched_lines_per_file (length section.matches)
    then record section { truncated = section.truncated + 1 }
    else record section { matches = section.matches ++ m ∷ [] }

unfoldable pub record_match :
    (Text → Bool) → Text → DiffMatch → List (Text × FileMatches) → List (Text × FileMatches)
record_match is_match path m sections =
    if is_match m.text
    then insert path (push_match m (or_default (lookup path sections))) sections
    else sections

abbrev enter_hunk : Option (ℕ × ℕ) → Scan → Scan
enter_hunk none st = st
enter_hunk (some (old, new)) st = record st { old_line = old; new_line = new }

-- A line of a hunk by its first character.
unfoldable pub body_line : (Text → Bool) → Text → Scan → Scan
body_line is_match [] st = st
body_line is_match (c ∷ text) st =
    if c == b'+'
    then record st {
      new_line = suc_u32 st.new_line;
      sections =
          record_match is_match st.path (record { line = st.new_line; added = true; text = text })
            st.sections;
    }
    else if c == b'-'
    then record st {
      old_line = suc_u32 st.old_line;
      sections =
          record_match is_match st.path (record { line = st.old_line; added = false; text = text })
            st.sections;
    }
    else if c == b' '
    then record st { old_line = suc_u32 st.old_line; new_line = suc_u32 st.new_line }
    else st

abbrev pub is_file_header : Text → Bool
is_file_header line =
    starts_with (txt "--- ") line || starts_with (txt "+++ ") line || starts_with (txt "\\") line

unfoldable pub scan_line : (Text → Bool) → Text → Scan → Scan
scan_line is_match line st = elim (strip_prefix (txt "diff --git ") line) [
  | some rest ↦ record st { path = path_from rest }
  | none ↦ elim (strip_prefix (txt "@@ ") line) [
    | some header ↦ enter_hunk (parse_hunk_header header) st
    | none ↦ if is_file_header line then st else body_line is_match line st
  ]
]

unfoldable pub scan_lines : (Text → Bool) → List Text → Scan → Scan
scan_lines is_match [] st = st
scan_lines is_match (line ∷ lines) st = scan_lines is_match lines (scan_line is_match line st)

abbrev without_return : Text → Text
without_return [] = []
without_return (c ∷ []) = if c == b'\r' then [] else c ∷ []
without_return (c ∷ d ∷ s) = c ∷ without_return (d ∷ s)

-- `str::lines`: an empty piece at the end is not a line.
unfoldable pub lines_of : List Text → List Text
lines_of [] = []
lines_of (p ∷ []) = if is_empty p then [] else p ∷ []
lines_of (p ∷ q ∷ ps) = without_return p ∷ lines_of (q ∷ ps)

unfoldable pub scan_patch : Text → (Text → Bool) → List (Text × FileMatches)
scan_patch patch is_match =
    (scan_lines is_match (lines_of (split_on b'\n' patch))
      (record { sections = []; path = []; old_line = 0; new_line = 0 })).sections
