-- ===== src/Engine/Tests/DiffRuns.antt =====
-- Runs of crates/cce-engine/src/diff.rs.
use cce.Prelude.{
  ◌-◌, min, ◌≡◌, refl, Bool, true, false, List, [], ◌∷◌, map, Text, txt, text_eq, arith, length,
  count, ◌==◌,
}
use cce.Prelude.Strings.{list_beq}
use cce.Prelude.Lists.{any, keep}
use cce.Prelude.Map.{lookup, insert, remove}
use cce.Prelude.Split.{split_where, split_on}
use cce.Prelude.Trim.{starts_with}
use cce.Prelude.Words.{is_whitespace}
use cce.Engine.Diff.{
  DiffMatch, Scan, strip_prefix, split_whitespace, path_from, parse_u32, range_start, header_tokens,
  parse_hunk_header, push_match, record_match, body_line, scan_line, scan_lines, lines_of,
  scan_patch,
}
use cce.Engine.Diff.Numbers.{Body, context, added, removed, print, numbered, record_all}
use cce.Engine.Diff.Recorded.{extended, hunk_lines_are_numbered}
use cce.Engine.Diff.Counts.{section_of, matched_lines_are_counted}

program : Unit {0}
unfolding list_beq any keep lookup insert remove split_on starts_with is_whitespace split_where
    strip_prefix split_whitespace path_from parse_u32 range_start header_tokens parse_hunk_header
    push_match record_match body_line scan_line scan_lines lines_of scan_patch record_all
program = tt

abbrev all : Text → Bool
all s = true

abbrev patch : Text
patch = txt "diff --git a/q.sql b/q.sql\n@@ -7,3 +7,2 @@\n x\n-y\n+z\n"

scanned :
    scan_patch patch all
    ≡ (
      txt "q.sql",
      record {
        matches =
            (record { line = 8; added = false; text = txt "y" })
            ∷ (record { line = 8; added = true; text = txt "z" })
            ∷ [];
        truncated = 0;
      },
    )
      ∷ []
unfolding program
scanned = refl

-- A removed line `-- a` is read as a header: it is not recorded, and the next one has its number.
lost_comment :
    scan_patch (txt "diff --git a/q.sql b/q.sql\n@@ -7,2 +7,0 @@\n--- a\n-y\n") all
    ≡ (
      txt "q.sql",
      record { matches = (record { line = 7; added = false; text = txt "y" }) ∷ []; truncated = 0 },
    )
      ∷ []
unfolding program
lost_comment = refl

abbrev here : Scan
here = record { sections = []; path = txt "a"; old_line = 7; new_line = 7 }

abbrev body : List Body
body = context (txt "x") ∷ removed (txt "y") ∷ added (txt "z") ∷ []

hunk_lines_are_numbered_example :
    let after = (scan_lines all (map print body) here).sections in
    (section_of (txt "a") after ≡ extended all (numbered 7 7 body) (section_of (txt "a") []))
    × ((q : Text) → (txt "a" == q) ≡ false → lookup q after ≡ lookup q [])
unfolding program
hunk_lines_are_numbered_example =
    hunk_lines_are_numbered all body here (tt, (refl, (refl, tt))) (omega arith) (omega arith)
      (omega arith)

matched_lines_are_counted_example :
    let f = section_of (txt "a") (record_all all (txt "a") (numbered 7 7 body) []) in
    let n = count (λ (m : DiffMatch). all m.text) (numbered 7 7 body) in
    (length f.matches ≡ min 32 n) × (f.truncated ≡ n - 32)
unfolding program
matched_lines_are_counted_example =
    matched_lines_are_counted all (txt "a") (numbered 7 7 body) [] refl
