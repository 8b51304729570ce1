-- ===== src/Encoding/Offsets.antt =====
-- About `newline_offsets` and `line_number_at` of encoding/detect.py.
use Prim.Native.Char.{code}
use issuekit.Prelude.{
  ℕ, zero, suc, ◌+◌, ◌<◌, ◌≤◌, String, true, false, Option, none, some, List, [], ◌∷◌,
  if◌then◌else◌, ◌≡◌, refl, sym, ap, ◌∙◌, eqb, leb, length, arith, inl, inr, ◌⊎◌, Bool-cases,
  Ascending, Ascending-weaken, select,
}
use issuekit.Encoding.Lines.{
  find_newline, offsets_from, text_length, newline_offsets, bisect_right, line_number_at,
}
use issuekit.Encoding.Bisect.{count_to, bisect_right-count_to}

-- The offsets of the line breaks of a text whose first character has this offset.
abbrev positions : ℕ → String → List ℕ
positions offset String.[] = []
positions offset (String.◌∷◌ c s) =
    if eqb (code c) b'\n' then offset ∷ positions (suc offset) s else positions (suc offset) s

positions-Ascending : (offset : ℕ) (s : String) → Ascending offset (positions offset s)
positions-Ascending offset String.[] = tt
positions-Ascending offset (String.◌∷◌ c s) = elim (Bool-cases (eqb (code c) b'\n')) [
  | inl breaks ↦ rw breaks (omega arith, positions-Ascending (suc offset) s)
  | inr other ↦ rw other (
      Ascending-weaken offset (suc offset) (positions (suc offset) s) (omega arith)
        (positions-Ascending (suc offset) s))
]

abbrev first : List ℕ → Option ℕ
first [] = none
first (x ∷ xs) = some x

find_newline-first :
    (start offset : ℕ) (s : String)
    → find_newline start offset s ≡ first (select (leb start) (positions offset s))
unfolding find_newline
find_newline-first start offset String.[] = refl
find_newline-first start offset (String.◌∷◌ c s) = elim (Bool-cases (eqb (code c) b'\n')) [
  | inr other ↦ rw other (find_newline-first start (suc offset) s)
  | inl breaks ↦ elim (Bool-cases (leb start offset)) [
    | inl late ↦ rw (breaks, late) refl
    | inr early ↦ rw (breaks, early) (find_newline-first start (suc offset) s)
  ]
]

select-all :
    (start bound : ℕ) (xs : List ℕ)
    → start ≤ bound
    → Ascending bound xs
    → select (leb start) xs ≡ xs
select-all start bound [] le up = refl
select-all start bound (x ∷ xs) le (least, up) =
    let here : leb start x ≡ true = ground arith in
    rw here (ap (λ l. x ∷ l) (select-all start (suc x) xs (omega arith) up))

select-bound :
    (start bound x : ℕ) (xs rest : List ℕ)
    → Ascending bound xs
    → select (leb start) xs ≡ x ∷ rest
    → bound ≤ x
select-bound start bound x [] rest up h = cc
select-bound start bound x (y ∷ xs) rest (least, up) h = elim (Bool-cases (leb start y)) [
  | inl late ↦
      let kept : y ∷ select (leb start) xs ≡ x ∷ rest = rw late at h in
      let e : y ≡ x = cc in omega arith
  | inr early ↦
      let more : select (leb start) xs ≡ x ∷ rest = rw early at h in
      let ih = select-bound start (suc y) x xs rest up more in omega arith
]

-- After the first of the offsets from `start` on come those after it.
select-next :
    (start bound x : ℕ) (xs rest : List ℕ)
    → Ascending bound xs
    → select (leb start) xs ≡ x ∷ rest
    → rest ≡ select (leb (x + 1)) xs
select-next start bound x [] rest up h = cc
select-next start bound x (y ∷ xs) rest (least, up) h = elim (Bool-cases (leb start y)) [
  | inl late ↦
      let kept : y ∷ select (leb start) xs ≡ x ∷ rest = rw late at h in
      let e : y ≡ x = cc in
      let others : select (leb start) xs ≡ rest = cc in
      let all = select-all start (suc y) xs (ground arith) up in
      let after : leb (x + 1) y ≡ false = ground arith in
      let all' = select-all (x + 1) (suc y) xs (omega arith) up in
      rw after (sym others ∙ all ∙ sym all')
  | inr early ↦
      let more : select (leb start) xs ≡ x ∷ rest = rw early at h in
      let ih = select-next start (suc y) x xs rest up more in
      let there = select-bound start (suc y) x xs rest up more in
      let after : leb (x + 1) y ≡ false = ground arith in rw after ih
]

List-cases : (xs : List ℕ) → (xs ≡ []) ⊎ ((x : ℕ) × (rest : List ℕ) × (xs ≡ x ∷ rest))
List-cases [] = inl refl
List-cases (x ∷ xs) = inr (x, xs, refl)

offsets_from-select :
    (fuel start : ℕ) (text : String)
    → length (select (leb start) (positions 0 text)) ≤ fuel
    → offsets_from fuel text (find_newline start 0 text) ≡ select (leb start) (positions 0 text)
unfolding offsets_from
offsets_from-select zero start text enough =
    elim (List-cases (select (leb start) (positions 0 text))) [
      | inl nothing ↦
          let none_left : find_newline start 0 text ≡ none =
            find_newline-first start 0 text ∙ ap first nothing in
          ap (offsets_from zero text) none_left ∙ sym nothing
      | inr (x, rest, e) ↦ let size = ap length e in absurd (omega arith)
    ]
offsets_from-select (suc fuel) start text enough =
    elim (List-cases (select (leb start) (positions 0 text))) [
      | inl nothing ↦
          let none_left : find_newline start 0 text ≡ none =
            find_newline-first start 0 text ∙ ap first nothing in
          ap (offsets_from (suc fuel) text) none_left ∙ sym nothing
      | inr (x, rest, e) ↦
          let found : find_newline start 0 text ≡ some x =
            find_newline-first start 0 text ∙ ap first e in
          let after =
            select-next start 0 x (positions 0 text) rest (positions-Ascending 0 text) e in
          let size = ap length e in
          let left = ap length after in
          let ih = offsets_from-select fuel (x + 1) text (omega arith) in
          ap (offsets_from (suc fuel) text) found ∙ ap (λ l. x ∷ l) (ih ∙ sym after) ∙ sym e
    ]

length-positions : (offset : ℕ) (s : String) → length (positions offset s) ≤ text_length s
unfolding text_length
length-positions offset String.[] = omega arith
length-positions offset (String.◌∷◌ c s) = ground (arith, length-positions (suc offset) s)

newline_offsets-positions : (text : String) → newline_offsets text ≡ positions 0 text
unfolding newline_offsets
newline_offsets-positions text =
    let all = select-all 0 0 (positions 0 text) (omega arith) (positions-Ascending 0 text) in
    let size = ap length all in
    let le = length-positions 0 text in
    offsets_from-select (text_length text) 0 text (omega arith) ∙ all

-- The line breaks among the first characters.
abbrev pub newlines_in : ℕ → String → ℕ
newlines_in zero s = 0
newlines_in (suc n) String.[] = 0
newlines_in (suc n) (String.◌∷◌ c s) =
    if eqb (code c) b'\n' then suc (newlines_in n s) else newlines_in n s

count_to-above :
    (index bound : ℕ) (xs : List ℕ) → index < bound → Ascending bound xs → count_to index xs ≡ 0
count_to-above index bound [] lt up = refl
count_to-above index bound (x ∷ xs) lt (least, up) =
    ground (arith, count_to-above index (suc x) xs (omega arith) up)

count_to-positions :
    (offset k : ℕ) (s : String) → count_to (offset + k) (positions offset s) ≡ newlines_in (suc k) s
count_to-positions offset k String.[] = refl
count_to-positions offset zero (String.◌∷◌ c s) =
    let rest =
      count_to-above (offset + 0) (suc offset) (positions (suc offset) s) (omega arith)
        (positions-Ascending (suc offset) s) in
    ground arith
count_to-positions offset (suc k) (String.◌∷◌ c s) =
    let e : offset + suc k ≡ suc offset + k = omega arith in
    let ih =
      ap (λ n. count_to n (positions (suc offset) s)) e ∙ count_to-positions (suc offset) k s in
    ground arith

-- The line that a binary search over the offsets of the line breaks gives for a character is one more than
-- the number of line breaks up to it.
pub line_number_at-newlines :
    (text : String) (index : ℕ)
    → line_number_at (newline_offsets text) index ≡ newlines_in (suc index) text + 1
unfolding line_number_at
line_number_at-newlines text index =
    let e = newline_offsets-positions text in
    let searched = bisect_right-count_to (positions 0 text) index 0 (positions-Ascending 0 text) in
    let counted = count_to-positions 0 index text in
    let i : 0 + index ≡ index = omega arith in
    ap (λ l. bisect_right l index + 1) e
    ∙ ap (λ n. n + 1) (searched ∙ ap (λ n. count_to n (positions 0 text)) (sym i) ∙ counted)
