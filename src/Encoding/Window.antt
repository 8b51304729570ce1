-- ===== src/Encoding/Window.antt =====
-- encoding/detect.py: the window of non-ASCII characters around a place, and the hits of the windows. The
-- codecs are parameters.
use Prim.Native.Char.{code}
use issuekit.Prelude.{
  ℕ, zero, suc, ◌+◌, ◌-◌, String, Bool, false, not, ◌||◌, ◌&&◌, Option, none, some, List, [], ◌∷◌,
  if◌then◌else◌, any, eqb, leb, ltb,
}
use issuekit.Encoding.Lines.{text_length, line_number_at, offset_at}

-- `text[index]`, inside the text
unfoldable pub char_at : ℕ → String → Option ℕ
char_at n String.[] = none
char_at zero (String.◌∷◌ c s) = some (code c)
char_at (suc n) (String.◌∷◌ c s) = char_at n s

abbrev pub is_wide : Option ℕ → Bool
is_wide none = false
is_wide (some c) = not (eqb c b'\n') && ltb 127 c

abbrev pub wide_at : String → ℕ → Bool
wide_at text n = is_wide (char_at n text)

-- `while start > 0 and ...: start -= 1`
unfoldable pub window_start : String → ℕ → ℕ
window_start text zero = zero
window_start text (suc start) =
    let rest = window_start text start in if wide_at text start then rest else suc start

-- `while end < len(text) and ...: end += 1`, with fuel for the characters
unfoldable pub window_end : ℕ → String → ℕ → ℕ
window_end zero text end = end
window_end (suc fuel) text end =
    let rest = window_end fuel text (suc end) in if wide_at text end then rest else end

unfoldable pub non_ascii_window : String → ℕ → ℕ × ℕ
non_ascii_window text index =
    (window_start text index, window_end (text_length text) text (suc index))

unfoldable pub take_chars : ℕ → String → String
take_chars zero s = ""
take_chars (suc n) String.[] = ""
take_chars (suc n) (String.◌∷◌ c s) = String.◌∷◌ c (take_chars n s)

-- `text[start:end]`
unfoldable pub slice : ℕ × ℕ → String → String
slice (start, end) String.[] = ""
slice (zero, end) (String.◌∷◌ c s) = take_chars end (String.◌∷◌ c s)
slice (suc start, end) (String.◌∷◌ c s) = slice (start, end - 1) s

abbrev is_c1_or_private : ℕ → Bool
is_c1_or_private c =
    (leb 128 c && leb c 159)
    || (leb 57344 c && leb c 63743)
    || (leb 983040 c && leb c 1048573)
    || (leb 1048576 c && leb c 1114109)

abbrev is_ascii_alnum : ℕ → Bool
is_ascii_alnum c =
    (leb b'0' c && leb c b'9') || (leb b'A' c && leb c b'Z') || (leb b'a' c && leb c b'z')

unfoldable pub any_char : (ℕ → Bool) → String → Bool
any_char test String.[] = false
any_char test (String.◌∷◌ c s) = test (code c) || any_char test s

abbrev pub is_plausible_recovery : String → Bool
is_plausible_recovery text = not (any_char is_ascii_alnum text)

abbrev pub contains_c1_control_or_private_use_character : String → Bool
contains_c1_control_or_private_use_character text = any_char is_c1_or_private text

-- A hit: the line and the column, the place, and what the window was recovered to.
pub record Hit : Type 0 where
  pub file : String
  pub line : ℕ
  pub column : ℕ
  pub index : ℕ
  pub character : String
  pub recovered : Option String

-- `index - previous_newline`, where the offset before the first line is -1
unfoldable pub mojibake_hit : String → List ℕ → ℕ → String → Hit
mojibake_hit file offsets index character =
    let line = line_number_at offsets index in
    record {
      file = file;
      line = line;
      column = if ltb 1 line then index - offset_at (line - 2) offsets else index + 1;
      index = index;
      character = character;
      recovered = none;
    }

abbrev pub same_window : ℕ × ℕ → ℕ × ℕ → Bool
same_window (a, b) (c, d) = eqb a c && eqb b d

-- `reverse_cp932` is `text.encode("cp932").decode("utf-8")`, if both succeed.
module _ (reverse_cp932 : String → Option String) where
  -- What a window is recovered to, if that is taken for confirmed.
  unfoldable pub confirmed_recovery : String → Option String
  confirmed_recovery window = elim (reverse_cp932 window) [
    | none ↦ none
    | some recovered ↦
        if contains_c1_control_or_private_use_character window || is_plausible_recovery recovered
        then some recovered
        else none
  ]

  abbrev pub add_hit : Hit → Option String → List Hit × List Hit → List Hit × List Hit
  add_hit hit none (confirmed, unconfirmed) = (confirmed, hit ∷ unconfirmed)
  add_hit hit (some recovered) (confirmed, unconfirmed) =
      (record hit { recovered = some recovered } ∷ confirmed, unconfirmed)

  -- The loop over the places, with the windows that were checked.
  unfoldable pub hits_from :
      String → String → List ℕ → List (ℕ × ℕ) → List (ℕ × String) → List Hit × List Hit
  hits_from file text offsets checked [] = ([], [])
  hits_from file text offsets checked ((index, character) ∷ artifacts) =
      let window = non_ascii_window text index in
      let is_checked = any (same_window window) checked in
      let rest =
        hits_from file text offsets (if is_checked then checked else window ∷ checked) artifacts in
      if is_checked
      then rest
      else add_hit (mojibake_hit file offsets index character)
          (confirmed_recovery (slice window text)) rest

  unfoldable pub confirmed_mojibake_hits :
      String → String → List (ℕ × String) → List ℕ → List Hit × List Hit
  confirmed_mojibake_hits file text artifacts offsets = hits_from file text offsets [] artifacts
