-- ===== src/Encoding/Hunks.antt =====
-- About `added_line_numbers` of encoding/scan.py: the hunks of a diff as Git writes them, and their headers.
use Prim.Native.Char.{Char, code}
use Prim.Native.String
use text.Mathlib.TextLemmas.{append-nil}
use issuekit.Prelude.{
  ℕ, ◌<◌, String, false, Option, none, some, List, [], ◌∷◌, ◌++◌, eqb, ok, ◌≡◌, refl, ap, ◌∙◌,
  arith,
}
use issuekit.Prelude.Text.{has_char, has_char-append, cut-append, cut-none}
use issuekit.Prelude.Decimal.{show, read-show, show-induction}
use issuekit.Agents.Router.Numbers.{is_number-show}
use issuekit.Encoding.Added.{drop_chars, until, third_word, int_of, hunk_start}

-- A hunk of a diff without context: where the added lines start, how their number is written, and the
-- texts of the lines.
pub record Hunk : Type 0 where
  pub old : String
  pub start : ℕ
  pub extent : Option ℕ
  pub tail : String
  pub removed : List String
  pub new : List String

abbrev extent_text : Option ℕ → String
extent_text none = ""
extent_text (some n) = String.◌∷◌ "," (show n)

-- `+start,extent`
abbrev plus_range : Hunk → String
plus_range h = String.◌∷◌ "+" (String.◌++◌ (show h.start) (extent_text h.extent))

abbrev pub header : Hunk → String
header h = String.◌++◌ "@@" (
    String.◌∷◌ " "
      (String.◌++◌ h.old (String.◌∷◌ " " (String.◌++◌ (plus_range h) (String.◌∷◌ " " h.tail)))))

abbrev pub marked : Char → List String → List String
marked c [] = []
marked c (line ∷ lines) = String.◌∷◌ c line ∷ marked c lines

abbrev pub hunk_lines : Hunk → List String
hunk_lines h = header h ∷ (marked "-" h.removed ++ marked "+" h.new)

show-no_char : (k n : ℕ) → k < b'0' → has_char k (show n) ≡ false
unfolding has_char
show-no_char k n below =
    show-induction (λ s. has_char k s ≡ false)
      (λ c s low high ih. (let other : eqb (code c) k ≡ false = ground arith in rw other ih)) n refl

extent_text-no_space : (extent : Option ℕ) → has_char b' ' (extent_text extent) ≡ false
unfolding has_char
extent_text-no_space none = refl
extent_text-no_space (some n) = show-no_char b' ' n (omega arith)

plus_range-no_space : (h : Hunk) → has_char b' ' (plus_range h) ≡ false
unfolding has_char
plus_range-no_space h =
    has_char-append b' ' (show h.start) (extent_text h.extent)
    ∙ rw (show-no_char b' ' h.start (omega arith), extent_text-no_space h.extent) refl

until-append :
    (k : ℕ) (c : Char) (a b : String)
    → code c ≡ k
    → has_char k a ≡ false
    → until k (String.◌++◌ a (String.◌∷◌ c b)) ≡ a
until-append k c a b e free = rw (cut-append k c a b e free, until) refl

until-none : (k : ℕ) (s : String) → has_char k s ≡ false → until k s ≡ s
until-none k s free = rw (cut-none k s free, until) refl

until-extent :
    (n : ℕ) (extent : Option ℕ) → until b',' (String.◌++◌ (show n) (extent_text extent)) ≡ show n
until-extent n none =
    ap (until b',') (append-nil (show n))
    ∙ until-none b',' (show n) (show-no_char b',' n (omega arith))
until-extent n (some m) =
    until-append b',' "," (show n) (show m) refl (show-no_char b',' n (omega arith))

int_of-show : (n : ℕ) → int_of (show n) ≡ ok n
unfolding int_of
int_of-show n = rw (is_number-show n, read-show n) refl

third_word-header :
    (h : Hunk) → has_char b' ' h.old ≡ false → third_word (header h) ≡ some (plus_range h)
unfolding third_word has_char
third_word-header h old =
    let rest = String.◌++◌ (plus_range h) (String.◌∷◌ " " h.tail) in
    let one = cut-append b' ' " " "@@" (String.◌++◌ h.old (String.◌∷◌ " " rest)) refl refl in
    let two = cut-append b' ' " " h.old rest refl old in
    rw (one, third_word)
      (rw (two, third_word)
        (ap some (until-append b' ' " " (plus_range h) h.tail refl (plus_range-no_space h))))

pub hunk_start-header :
    (h : Hunk) → has_char b' ' h.old ≡ false → hunk_start (header h) ≡ ok h.start
unfolding hunk_start drop_chars
hunk_start-header h old =
    rw (third_word-header h old, hunk_start)
      (ap int_of (until-extent h.start h.extent) ∙ int_of-show h.start)
