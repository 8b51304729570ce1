-- ===== src/Encoding/Added.antt =====
-- encoding/scan.py: the lines that a diff without context adds. A diff is given by its lines, and a set of
-- numbers by a list.
use Prim.Native.Char.{code}
use issuekit.Prelude.{
  ℕ, zero, suc, ◌+◌, String, Bool, true, false, ◌&&◌, Option, none, some, List, [], ◌∷◌,
  if◌then◌else◌, ◌==◌, any, eqb, Result, ok, err, Error, value_error, is_some, ◌>>=◌,
}
use issuekit.Prelude.Text.{cut}
use issuekit.Prelude.Decimal.{read_after}
use issuekit.Agents.Router.{is_number}

-- `line.startswith(prefix)`
unfoldable pub starts_with : String → String → Bool
starts_with String.[] s = true
starts_with (String.◌∷◌ p prefix) String.[] = false
starts_with (String.◌∷◌ p prefix) (String.◌∷◌ c s) = eqb (code p) (code c) && starts_with prefix s

-- `line[n:]`
unfoldable pub drop_chars : ℕ → String → String
drop_chars zero s = s
drop_chars (suc n) String.[] = ""
drop_chars (suc n) (String.◌∷◌ c s) = drop_chars n s

abbrev pub until : ℕ → String → String
until k s = elim (cut k s) [ none ↦ s | some (before, rest) ↦ before ]

-- `line.split(" ")[2]`
unfoldable pub third_word : String → Option String
third_word line = elim (cut b' ' line) [
  | none ↦ none
  | some (one, rest) ↦ elim (cut b' ' rest) [
    | none ↦ none
    | some (two, others) ↦ some (until b' ' others)
  ]
]

-- `int`, of the digits that Git writes.
unfoldable pub int_of : String → Result ℕ
int_of s = if is_number s then ok (read_after 0 s) else err value_error

unfoldable pub hunk_start : String → Result ℕ
hunk_start line = elim (third_word line) [
  | none ↦ err Error.lookup_error
  | some plus_range ↦ int_of (until b',' (drop_chars 1 plus_range))
]

-- The added lines of each file.
abbrev pub Changed : Type 0
Changed = List (String × List ℕ)

-- `changed_lines.setdefault(path, set())`
unfoldable pub set_default : String → Changed → Changed
set_default path [] = (path, []) ∷ []
set_default path ((p, numbers) ∷ changed) =
    if p == path then (p, numbers) ∷ changed else (p, numbers) ∷ set_default path changed

-- `changed_lines[path].add(n)`
unfoldable pub add_number : String → ℕ → Changed → Changed
add_number path n [] = []
add_number path n ((p, numbers) ∷ changed) =
    if p == path then (p, n ∷ numbers) ∷ changed else (p, numbers) ∷ add_number path n changed

pub record Reading : Type 0 where
  pub changed : Changed
  pub rel_path : Option String
  pub line_number : Option ℕ

abbrev pub added : Changed → Option String → Option ℕ → Reading
added changed (some path) (some n) = record {
  changed = add_number path n changed;
  rel_path = some path;
  line_number = some (n + 1);
}
added changed none line_number = record {
  changed = changed;
  rel_path = none;
  line_number = line_number;
}
added changed (some path) none = record {
  changed = changed;
  rel_path = some path;
  line_number = none;
}

abbrev pub counted : Option ℕ → Option ℕ
counted none = none
counted (some n) = some (n + 1)

-- A line that is no header.
abbrev pub read_content : Reading → String → Reading
read_content r line =
    if is_some r.rel_path && is_some r.line_number && starts_with "+" line
    then added r.changed r.rel_path r.line_number
    else if starts_with "-" line
    then r
    else record r { line_number = counted r.line_number }

unfoldable pub read_line : Reading → String → Result Reading
read_line r line =
    if starts_with "diff --git " line
    then ok (record r { rel_path = none; line_number = none })
    else if starts_with "+++ /dev/null" line
    then ok (record r { rel_path = none })
    else if starts_with "+++ b/" line
    then ok (record r {
      changed = set_default (drop_chars 6 line) r.changed;
      rel_path = some (drop_chars 6 line);
    })
    else if starts_with "@@" line
    then (hunk_start line >>= λ n. ok (record r { line_number = some n }))
    else ok (read_content r line)

unfoldable pub read_lines : Reading → List String → Result Reading
read_lines r [] = ok r
read_lines r (line ∷ lines) = read_line r line >>= λ r'. read_lines r' lines

abbrev pub nothing_read : Reading
nothing_read = record { changed = []; rel_path = none; line_number = none }

unfoldable pub added_line_numbers : List String → Result Changed
added_line_numbers lines = read_lines nothing_read lines >>= λ r. ok r.changed

-- Whether a line of a file was added.
unfoldable pub is_added : String → ℕ → Changed → Bool
is_added path n [] = false
is_added path n ((p, numbers) ∷ changed) =
    if p == path then any (eqb n) numbers else is_added path n changed
