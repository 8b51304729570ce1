-- ===== src/Encoding/Lines.antt =====
-- encoding/detect.py: the offsets of line breaks, and the line of an offset.
use Prim.Native.Nat.{◌/◌}
use Prim.Native.Char.{code}
use issuekit.Prelude.{
  ℕ, zero, suc, ◌+◌, String, ◌&&◌, Option, none, some, List, [], ◌∷◌, if◌then◌else◌, eqb, leb, ltb,
  length,
}

-- `text.find("\n", start)`, of the text from this offset on
unfoldable pub find_newline : ℕ → ℕ → String → Option ℕ
find_newline start offset String.[] = none
find_newline start offset (String.◌∷◌ c s) =
    if eqb (code c) b'\n' && leb start offset
    then some offset
    else find_newline start (suc offset) s

-- The loop, with fuel for each character.
unfoldable pub offsets_from : ℕ → String → Option ℕ → List ℕ
offsets_from fuel text none = []
offsets_from zero text (some offset) = []
offsets_from (suc fuel) text (some offset) =
    offset ∷ offsets_from fuel text (find_newline (offset + 1) 0 text)

unfoldable pub text_length : String → ℕ
text_length String.[] = 0
text_length (String.◌∷◌ c s) = suc (text_length s)

unfoldable pub newline_offsets : String → List ℕ
newline_offsets text = offsets_from (text_length text) text (find_newline 0 0 text)

-- An offset in the list; it is read only inside it.
unfoldable pub offset_at : ℕ → List ℕ → ℕ
offset_at n [] = 0
offset_at zero (x ∷ xs) = x
offset_at (suc n) (x ∷ xs) = offset_at n xs

-- The next bounds of the search.
abbrev pub halved : List ℕ → ℕ → ℕ → ℕ → ℕ × ℕ
halved offsets index low high =
    let middle = (low + high) / 2 in
    if ltb index (offset_at middle offsets) then (low, middle) else (middle + 1, high)

-- `bisect.bisect_right`, with fuel for the length.
unfoldable pub bisect_between : ℕ → List ℕ → ℕ → ℕ × ℕ → ℕ
bisect_between zero offsets index (low, high) = low
bisect_between (suc fuel) offsets index (low, high) =
    let rest = bisect_between fuel offsets index (halved offsets index low high) in
    if ltb low high then rest else low

unfoldable pub bisect_right : List ℕ → ℕ → ℕ
bisect_right offsets index = bisect_between (length offsets) offsets index (0, length offsets)

unfoldable pub line_number_at : List ℕ → ℕ → ℕ
line_number_at offsets index = bisect_right offsets index + 1
