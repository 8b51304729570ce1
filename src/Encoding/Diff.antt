-- ===== src/Encoding/Diff.antt =====
-- About `added_line_numbers` of encoding/scan.py, on the diff of a file.
use Prim.Native.String
use text.Mathlib.TextLemmas.{cons-append, nil-append}
use mathlib.Core.List.{append_assoc}
use issuekit.Prelude.{
  ℕ, ◌+◌, String, Bool, true, false, ◌||◌, ◌&&◌, Option, none, some, List, [], ◌∷◌, ◌++◌, ◌==◌, any,
  eqb, leb, ltb, ok, ◌>>=◌, ◌≡◌, refl, ap, ◌∙◌, arith, eq_iff, length, All,
}
use issuekit.Prelude.Text.{has_char}
use issuekit.Encoding.Added.{
  starts_with, drop_chars, hunk_start, Changed, set_default, add_number, Reading, read_line,
  read_lines, nothing_read, added_line_numbers, is_added,
}
use issuekit.Encoding.Hunks.{Hunk, header, marked, hunk_lines, hunk_start-header}

-- The text of an added line, which does not make it look like a header.
abbrev pub IsPlain : String → Type 0
IsPlain line = (starts_with "++ /dev/null" line ≡ false) × (starts_with "++ b/" line ≡ false)

abbrev pub IsHunk : Hunk → Type 0
IsHunk h = (has_char b' ' h.old ≡ false) × All IsPlain h.new

abbrev reading : String → List ℕ → Option ℕ → Reading
reading path numbers line_number = record {
  changed = (path, numbers) ∷ [];
  rel_path = some path;
  line_number = line_number;
}

read_lines-removed :
    (path : String) (numbers : List ℕ) (n : ℕ) (removed rest : List String)
    → read_lines (reading path numbers (some n)) (marked "-" removed ++ rest)
      ≡ read_lines (reading path numbers (some n)) rest
unfolding read_lines read_line starts_with
read_lines-removed path numbers n [] rest = refl
read_lines-removed path numbers n (line ∷ removed) rest =
    read_lines-removed path numbers n removed rest

abbrev added_from : ℕ → List String → List ℕ → List ℕ
added_from n [] numbers = numbers
added_from n (line ∷ lines) numbers = added_from (n + 1) lines (n ∷ numbers)

abbrev after : ℕ → List String → ℕ
after n [] = n
after n (line ∷ lines) = after (n + 1) lines

same_path : (path : String) → (path == path) ≡ true
same_path path = ground (arith, eq_iff path path)

read_line-new :
    (path : String) (numbers : List ℕ) (n : ℕ) (line : String)
    → IsPlain line
    → read_line (reading path numbers (some n)) (String.◌∷◌ "+" line)
      ≡ ok (reading path (n ∷ numbers) (some (n + 1)))
unfolding read_line starts_with add_number
read_line-new path numbers n line (no_null, no_file) = rw (no_null, no_file, same_path path) refl

read_lines-new :
    (path : String) (numbers : List ℕ) (n : ℕ) (new rest : List String)
    → All IsPlain new
    → read_lines (reading path numbers (some n)) (marked "+" new ++ rest)
      ≡ read_lines (reading path (added_from n new numbers) (some (after n new))) rest
unfolding read_lines
read_lines-new path numbers n [] rest plain = refl
read_lines-new path numbers n (line ∷ new) rest (one, plain) =
    ap (λ r. r >>= λ r'. read_lines r' (marked "+" new ++ rest))
      (read_line-new path numbers n line one)
    ∙ read_lines-new path (n ∷ numbers) (n + 1) new rest plain

read_line-hunk :
    (r : Reading) (rest : String)
    → read_line r (String.◌++◌ "@@" rest)
      ≡ (hunk_start (String.◌++◌ "@@" rest) >>= λ n. ok (record r { line_number = some n }))
unfolding read_line starts_with
read_line-hunk r rest = rw (cons-append, cons-append, nil-append) refl

read_line-header :
    (path : String) (numbers : List ℕ) (line_number : Option ℕ) (h : Hunk)
    → has_char b' ' h.old ≡ false
    → read_line (reading path numbers line_number) (header h)
      ≡ ok (reading path numbers (some h.start))
read_line-header path numbers line_number h old =
    read_line-hunk (reading path numbers line_number) _
    ∙ ap (λ start. start >>= λ n. ok (reading path numbers (some n))) (hunk_start-header h old)

abbrev added_by : List Hunk → List ℕ → List ℕ
added_by [] numbers = numbers
added_by (h ∷ hunks) numbers = added_by hunks (added_from h.start h.new numbers)

abbrev pub lines_of : List Hunk → List String
lines_of [] = []
lines_of (h ∷ hunks) = hunk_lines h ++ lines_of hunks

read_lines-hunks :
    (path : String) (numbers : List ℕ) (line_number : Option ℕ) (hunks : List Hunk)
    → All IsHunk hunks
    → (last : Option ℕ) × (read_lines (reading path numbers line_number) (lines_of hunks)
        ≡ ok (reading path (added_by hunks numbers) last))
unfolding read_lines
read_lines-hunks path numbers line_number [] are = (line_number, refl)
read_lines-hunks path numbers line_number (h ∷ hunks) ((old, plain), are) =
    let now = added_from h.start h.new numbers in
    let (last, others) = read_lines-hunks path now (some (after h.start h.new)) hunks are in
    (
      last,
      ap
            (λ r. r >>= λ r'.
              read_lines r' ((marked "-" h.removed ++ marked "+" h.new) ++ lines_of hunks))
            (read_line-header path numbers line_number h old)
          ∙ ap (read_lines (reading path numbers (some h.start)))
              (append_assoc (marked "-" h.removed) (marked "+" h.new) (lines_of hunks))
          ∙ read_lines-removed path numbers h.start h.removed (marked "+" h.new ++ lines_of hunks)
          ∙ read_lines-new path numbers h.start h.new (lines_of hunks) plain
          ∙ others,
    )

-- Whether a hunk adds this line.
abbrev pub adds_line : ℕ → Hunk → Bool
adds_line m h = leb h.start m && ltb m (h.start + length h.new)

any-added_from :
    (m n : ℕ) (new : List String) (numbers : List ℕ)
    → any (eqb m) (added_from n new numbers)
      ≡ ((leb n m && ltb m (n + length new)) || any (eqb m) numbers)
any-added_from m n [] numbers = ground arith
any-added_from m n (line ∷ new) numbers =
    let ih = any-added_from m (n + 1) new (n ∷ numbers) in ground arith

any-added_by :
    (m : ℕ) (hunks : List Hunk) (numbers : List ℕ)
    → any (eqb m) (added_by hunks numbers) ≡ (any (adds_line m) hunks || any (eqb m) numbers)
any-added_by m [] numbers = refl
any-added_by m (h ∷ hunks) numbers =
    let ih = any-added_by m hunks (added_from h.start h.new numbers) in
    let now = any-added_from m h.start h.new numbers in ground arith

-- The diff of a file, with what stands in its other lines.
pub record FileDiff : Type 0 where
  pub names : String
  pub blobs : String
  pub old : String
  pub path : String
  pub hunks : List Hunk

abbrev pub diff_lines : FileDiff → List String
diff_lines d =
    String.◌++◌ "diff --git " d.names
    ∷ String.◌++◌ "index " d.blobs
    ∷ String.◌++◌ "--- " d.old
    ∷ String.◌++◌ "+++ b/" d.path
    ∷ lines_of d.hunks

starts_with-append : (prefix s : String) → starts_with prefix (String.◌++◌ prefix s) ≡ true
unfolding starts_with
starts_with-append String.[] s = refl
starts_with-append (String.◌∷◌ c prefix) s =
    rw cons-append (ground (arith, starts_with-append prefix s))

read_line-diff :
    (names : String) → read_line nothing_read (String.◌++◌ "diff --git " names) ≡ ok nothing_read
unfolding read_line
read_line-diff names = rw (starts_with-append "diff --git " names) refl

read_line-index :
    (blobs : String) → read_line nothing_read (String.◌++◌ "index " blobs) ≡ ok nothing_read
unfolding read_line starts_with
read_line-index blobs = rw cons-append refl

read_line-old : (old : String) → read_line nothing_read (String.◌++◌ "--- " old) ≡ ok nothing_read
unfolding read_line starts_with
read_line-old old = rw cons-append refl

read_line-path :
    (path : String) → read_line nothing_read (String.◌++◌ "+++ b/" path) ≡ ok (reading path [] none)
unfolding read_line starts_with drop_chars set_default
read_line-path path =
    rw (cons-append, cons-append, cons-append, cons-append, cons-append, cons-append, nil-append)
      refl

-- From the diff of a file, with added lines that do not look like the header of a file, just the lines are
-- read that its hunks add.
pub added_line_numbers-hunks :
    (d : FileDiff) (m : ℕ)
    → All IsHunk d.hunks
    → (changed : Changed) × (added_line_numbers (diff_lines d) ≡ ok changed)
      × (is_added d.path m changed ≡ any (adds_line m) d.hunks)
unfolding added_line_numbers read_lines is_added
added_line_numbers-hunks d m are =
    let (last, read) = read_lines-hunks d.path [] none d.hunks are in
    let numbers = added_by d.hunks [] in
    (
      (d.path, numbers) ∷ [],
      rw
          (
            read_line-diff d.names,
            read_line-index d.blobs,
            read_line-old d.old,
            read_line-path d.path,
            read,
          )
          refl,
      rw (same_path d.path) (any-added_by m d.hunks [] ∙ ground arith),
    )

-- A hunk whose last removed line ended the file without a line break.
abbrev pub no_newline : String
no_newline = "\\ No newline at end of file"

abbrev pub unterminated_lines : FileDiff → Hunk → List String
unterminated_lines d h =
    String.◌++◌ "diff --git " d.names
    ∷ String.◌++◌ "index " d.blobs
    ∷ String.◌++◌ "--- " d.old
    ∷ String.◌++◌ "+++ b/" d.path
    ∷ header h
    ∷ (marked "-" h.removed ++ (no_newline ∷ (marked "+" h.new ++ [])))

read_line-no_newline :
    (path : String) (numbers : List ℕ) (n : ℕ)
    → read_line (reading path numbers (some n)) no_newline
      ≡ ok (reading path numbers (some (n + 1)))
unfolding read_line starts_with
read_line-no_newline path numbers n = refl

-- Where Git marks the last removed line as one without a line break, the lines that are read are those
-- after the ones that the hunk adds, by one.
pub added_line_numbers_unterminated :
    (d : FileDiff) (h : Hunk) (m : ℕ)
    → IsHunk h
    → (changed : Changed) × (added_line_numbers (unterminated_lines d h) ≡ ok changed)
      × (is_added d.path m changed ≡ (leb (h.start + 1) m && ltb m (h.start + 1 + length h.new)))
unfolding added_line_numbers read_lines is_added
added_line_numbers_unterminated d h m (old, plain) =
    let numbers = added_from (h.start + 1) h.new [] in
    let rest = no_newline ∷ (marked "+" h.new ++ []) in
    let removed = read_lines-removed d.path [] h.start h.removed rest in
    let new = read_lines-new d.path [] (h.start + 1) h.new [] plain in
    let counted = any-added_from m (h.start + 1) h.new [] in
    (
      (d.path, numbers) ∷ [],
      rw
          (
            read_line-diff d.names,
            read_line-index d.blobs,
            read_line-old d.old,
            read_line-path d.path,
            read_line-header d.path [] none h old,
            removed,
            read_line-no_newline d.path [] h.start,
            new,
          )
          refl,
      rw (same_path d.path) (counted ∙ ground arith),
    )
