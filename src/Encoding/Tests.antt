-- ===== src/Encoding/Tests.antt =====
-- Concrete texts, paths and diffs.
use issuekit.Prelude.{
  ℕ, All, false, some, List, ◌+◌, String, true, ◌&&◌, Option, none, [], ◌∷◌, if◌then◌else◌, any,
  ◌≡◌, ◌↔◌, refl, ok, leb, ltb, ◌==◌,
}
use issuekit.Prelude.Text.{has_char}
use issuekit.Encoding.Lines.{newline_offsets, line_number_at}
use issuekit.Encoding.Offsets.{newlines_in, line_number_at-newlines}
use issuekit.Encoding.Paths.{matches_path_parts, IsMatch}
use issuekit.Encoding.Matched.{matches_path_parts-IsMatch}
use issuekit.Encoding.Window.{char_at, wide_at, non_ascii_window, confirmed_mojibake_hits}
use issuekit.Encoding.Maximal.{IsWindow, non_ascii_window-IsWindow}
use issuekit.Encoding.Once.{hits_of, has_place, confirmed_mojibake_hits-once}
use issuekit.Encoding.Scan.{MojibakeScanOptions, Content, scan_mojibake}
use issuekit.Encoding.Scope.{IsConfirmed, IsUnconfirmed, scan_mojibake-IsConfirmed}
use issuekit.Encoding.Added.{starts_with, Changed, added_line_numbers, is_added}
use issuekit.Encoding.Hunks.{Hunk}
use issuekit.Encoding.Diff.{
  FileDiff, IsHunk, adds_line, diff_lines, unterminated_lines, added_line_numbers-hunks,
  added_line_numbers_unterminated,
}

abbrev text : String
text = "a\né日"

line_number_at-newlines_example : line_number_at (newline_offsets text) 2 ≡ newlines_in 3 text + 1
line_number_at-newlines_example = line_number_at-newlines text 2

matches_path_parts-IsMatch_example :
    (matches_path_parts ◌==◌ ("docs" ∷ "old" ∷ "a.md" ∷ []) ("docs" ∷ "**" ∷ []) ≡ true)
    ↔ IsMatch ◌==◌ ("docs" ∷ "old" ∷ "a.md" ∷ []) ("docs" ∷ "**" ∷ [])
matches_path_parts-IsMatch_example =
    matches_path_parts-IsMatch ◌==◌ ("docs" ∷ "old" ∷ "a.md" ∷ []) ("docs" ∷ "**" ∷ [])

text-wide : wide_at text 3 ≡ true
unfolding char_at
text-wide = refl

non_ascii_window-IsWindow_example : IsWindow text 3 2 (non_ascii_window text 3)
non_ascii_window-IsWindow_example = non_ascii_window-IsWindow text 3 2 text-wide

-- A codec that recovers nothing.
abbrev unknown : String → Option String
unknown window = none

confirmed_mojibake_hits-once_example :
    hits_of text
      (2, 4)
      (confirmed_mojibake_hits unknown "a.md" text ((2, "é") ∷ (3, "日") ∷ []) (1 ∷ []))
    ≡ (if has_place text (2, 4) ((2, "é") ∷ (3, "日") ∷ []) then 1 else 0)
confirmed_mojibake_hits-once_example =
    confirmed_mojibake_hits-once unknown "a.md" text ((2, "é") ∷ (3, "日") ∷ []) (1 ∷ []) (2, 4)

abbrev hunk : Hunk
hunk = record {
  old = "-3";
  start = 3;
  extent = none;
  tail = "@@";
  removed = "old" ∷ [];
  new = "new" ∷ [];
}

abbrev diff : FileDiff
diff = record { names = "a/x b/x"; blobs = "1..2"; old = "a/x"; path = "x"; hunks = hunk ∷ [] }

hunk-IsHunk : IsHunk hunk
unfolding has_char starts_with
hunk-IsHunk = (refl, ((refl, refl), tt))

added_line_numbers-hunks_example :
    (changed : Changed) × (added_line_numbers (diff_lines diff) ≡ ok changed)
    × (is_added "x" 3 changed ≡ any (adds_line 3) (hunk ∷ []))
added_line_numbers-hunks_example = added_line_numbers-hunks diff 3 (hunk-IsHunk, tt)

added_line_numbers_unterminated_example :
    (changed : Changed) × (added_line_numbers (unterminated_lines diff hunk) ≡ ok changed)
    × (is_added "x" 3 changed ≡ (leb (3 + 1) 3 && ltb 3 (3 + 1 + 1)))
added_line_numbers_unterminated_example = added_line_numbers_unterminated diff hunk 3 hunk-IsHunk

abbrev scan_options : MojibakeScanOptions
scan_options = record {
  fail_confirmed = true;
  fail_unconfirmed = false;
  include_halfwidth_katakana = true;
  extensions = none;
  only_changed_lines = true;
  exclude_patterns = "docs/**" ∷ [];
  exclude_confirmed = false;
  exclude_unconfirmed = true;
}

-- Each file holds a replacement character in its second line.
abbrev contents : String → Option Content
contents file = some (record { has_nul = false; decoded = some "a\n�" })

-- The second line of each file is changed.
abbrev second_line : Option (String → List ℕ)
second_line = some (λ file. 2 ∷ [])

scan_mojibake-IsConfirmed_example :
    All
      (IsConfirmed ◌==◌ unknown scan_options second_line [])
      (scan_mojibake ◌==◌ unknown scan_options contents second_line []
        ("docs/a.md" ∷ "b.py" ∷ [])).0
    × All
        (IsUnconfirmed ◌==◌ unknown scan_options second_line [])
        (scan_mojibake ◌==◌ unknown scan_options contents second_line []
          ("docs/a.md" ∷ "b.py" ∷ [])).1
scan_mojibake-IsConfirmed_example =
    scan_mojibake-IsConfirmed ◌==◌ unknown scan_options second_line [] contents
      ("docs/a.md" ∷ "b.py" ∷ [])
