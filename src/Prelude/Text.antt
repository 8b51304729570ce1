-- ===== src/Prelude/Text.antt =====
-- The operations on `str` that the program uses, over the native texts.
use Prim.Native.Nat.{ℕ, ◌+◌}
use Prim.Native.Char.{Char, code}
use Prim.Native.String.{String, [], ◌∷◌, ◌++◌}
use mathlib.Core.Path.{◌≡◌, refl}
use mathlib.Core.Bool.{Bool, true, false, ◌&&◌, ◌||◌}
use mathlib.Core.Option.{Option, none, some}
use mathlib.Core.List.{List}
use native.Mathlib.Omega.{arith}
use issuekit.Prelude.Tests.{if◌then◌else◌, leb, eqb, Bool-cases, Option-cases}
use mathlib.Core.Logic.{◌≢◌, inl, inr}
use text.Mathlib.Text.{◌==◌}
use text.Mathlib.TextEquality.{eq_iff, Char-path}
use text.Mathlib.TextLemmas.{nil-append, cons-append, append-ne-nil_of_right_ne-nil}

-- `c.isspace()`
unfoldable pub is_space : ℕ → Bool
is_space c =
    (leb 9 c && leb c 13)
    || (leb 28 c && leb c 32)
    || eqb c 133
    || eqb c 160
    || eqb c 5760
    || (leb 8192 c && leb c 8202)
    || eqb c 8232
    || eqb c 8233
    || eqb c 8239
    || eqb c 8287
    || eqb c 12288

unfoldable pub lstrip : String → String
lstrip [] = []
lstrip (c ∷ s) = let rest = lstrip s in if is_space (code c) then rest else c ∷ s

abbrev pub trimmed : Char → String → String
trimmed c [] = if is_space (code c) then [] else c ∷ []
trimmed c (d ∷ s) = c ∷ d ∷ s

unfoldable pub rstrip : String → String
rstrip [] = []
rstrip (c ∷ s) = trimmed c (rstrip s)

-- `s.strip()`
unfoldable pub strip : String → String
unfolding lstrip rstrip is_space
strip s = rstrip (lstrip s)

-- `sep.join(parts)`
unfoldable pub join : String → List String → String
join sep List.[] = []
join sep (List.◌∷◌ part List.[]) = part
join sep (List.◌∷◌ part (List.◌∷◌ next parts)) = part ++ (sep ++ join sep (List.◌∷◌ next parts))

-- Every character passes the test.
abbrev pub AllChars : (ℕ → Bool) → String → Type 0
AllChars p [] = Unit
AllChars p (c ∷ s) = (p (code c) ≡ true) × AllChars p s

-- `chr(c) in s`
unfoldable pub has_char : ℕ → String → Bool
has_char k [] = false
has_char k (c ∷ s) = eqb (code c) k || has_char k s

-- The text before and after the first `chr(k)`: `s.partition(...)`, `s.split(..., 1)`.
unfoldable pub cut : ℕ → String → Option (String × String)
cut k [] = none
cut k (c ∷ s) =
    if eqb (code c) k
    then some ([], s)
    else elim (cut k s) [ none ↦ none | some (a, b) ↦ some (c ∷ a, b) ]

-- The text before and after the last `chr(k)`: `s.rpartition(...)`, `s.rsplit(..., 1)`.
unfoldable pub rcut : ℕ → String → Option (String × String)
rcut k [] = none
rcut k (c ∷ s) = elim (rcut k s) [
  | none ↦ if eqb (code c) k then some ([], s) else none
  | some (a, b) ↦ some (c ∷ a, b)
]

pub has_char-append : (k : ℕ) (s t : String) → has_char k (s ++ t) ≡ (has_char k s || has_char k t)
unfolding has_char
has_char-append k [] t = rw nil-append
has_char-append k (c ∷ s) t = rw cons-append (ground (arith, has_char-append k s t))

-- Cutting at a character that the part before does not hold.
pub cut-append :
    (k : ℕ) (c : Char) (a b : String)
    → code c ≡ k
    → has_char k a ≡ false
    → cut k (a ++ (c ∷ b)) ≡ some (a, b)
unfolding cut has_char
cut-append k c [] b e h = rw nil-append (ground arith)
cut-append k c (d ∷ a) b e h = rw cons-append (ground (arith, cut-append k c a b e))

pub cut-none : (k : ℕ) (s : String) → has_char k s ≡ false → cut k s ≡ none
unfolding cut has_char
cut-none k [] h = refl
cut-none k (c ∷ s) h = ground (arith, cut-none k s)

pub rcut-none : (k : ℕ) (s : String) → has_char k s ≡ false → rcut k s ≡ none
unfolding rcut has_char
rcut-none k [] h = refl
rcut-none k (c ∷ s) h = ground (arith, rcut-none k s)

-- Cutting at a character that the part after does not hold.
pub rcut-append :
    (k : ℕ) (c : Char) (a b : String)
    → code c ≡ k
    → has_char k b ≡ false
    → rcut k (a ++ (c ∷ b)) ≡ some (a, b)
unfolding rcut
rcut-append k c [] b e h = rw nil-append (ground (arith, rcut-none k b))
rcut-append k c (d ∷ a) b e h = rw cons-append (ground (arith, rcut-append k c a b e h))

trimmed-keep : (c : Char) (s : String) → is_space (code c) ≡ false → trimmed c s ≡ c ∷ s
trimmed-keep c [] h = rw h
trimmed-keep c (d ∷ s) h = refl

trimmed-ne : (c : Char) (s : String) → s ≢ [] → trimmed c s ≡ c ∷ s
trimmed-ne c [] h = absurd (h refl)
trimmed-ne c (d ∷ s) h = refl

pub rstrip-cons :
    (c : Char) (s : String) → is_space (code c) ≡ false → rstrip s ≡ s → rstrip (c ∷ s) ≡ c ∷ s
unfolding rstrip
rstrip-cons c s h e = rw e (trimmed-keep c s h)

append-ne : (s t : String) → t ≢ [] → s ++ t ≢ []
append-ne s t h = append-ne-nil_of_right_ne-nil s h

pub rstrip-append : (s t : String) → rstrip t ≡ t → t ≢ [] → rstrip (s ++ t) ≡ s ++ t
unfolding rstrip
rstrip-append [] t e ne = rw nil-append e
rstrip-append (c ∷ s) t e ne =
    rw (cons-append, rstrip-append s t e ne) (trimmed-ne c (s ++ t) (append-ne s t ne))

-- A text that begins with no space, and ends in a part that stripping leaves alone.
pub strip-append :
    (c : Char) (s t : String)
    → is_space (code c) ≡ false
    → rstrip t ≡ t
    → t ≢ []
    → strip ((c ∷ s) ++ t) ≡ (c ∷ s) ++ t
unfolding strip
strip-append c s t h e ne =
    rw (cons-append, h, rstrip-append s t e ne) (trimmed-ne c (s ++ t) (append-ne s t ne))

-- What was cut, put together again.
pub append-cut :
    (k : ℕ) (s a b : String)
    → cut k s ≡ some (a, b)
    → (c : Char) × (code c ≡ k) × (s ≡ a ++ (c ∷ b)) × (has_char k a ≡ false)
unfolding cut has_char
append-cut k [] a b h = cc
append-cut k (c ∷ s) a b h = elim (Bool-cases (eqb (code c) k)) [
  | inl hit ↦
      let at_start : ◌≡◌ {A = Option (String × String)} (some ("", s)) (some (a, b)) =
        rw (hit, cut) at h in
      let start : ◌≡◌ {A = String} [] a = cc at_start in
      (c, ground arith, cc (at_start, nil-append (c ∷ s)), rw (← start) refl)
  | inr miss ↦ elim (Option-cases (cut k s)) [
    | inl e ↦ absurd (ground arith)
    | inr ((a', b'), e) ↦
        let later : ◌≡◌ {A = Option (String × String)} (some (c ∷ a', b')) (some (a, b)) =
          rw (miss, e) at h in
        let start : ◌≡◌ {A = String} (c ∷ a') a = cc later in
        let (d, coded, split, free) = append-cut k s a' b' e in
        (
          d,
          coded,
          cc (later, split, cons-append c a' (d ∷ b')),
          rw (← start) (rw (miss, free) refl),
        )
  ]
]

pub eq_comm : (s t : String) → (s == t) ≡ (t == s)
eq_comm s t = ground (arith, eq_iff s t, eq_iff t s)

pub eq_append-cut :
    (k : ℕ) (d : Char) (s a b : String) → code d ≡ k → cut k s ≡ some (a, b) → s ≡ a ++ (d ∷ b)
eq_append-cut k d s a b e h =
    let (c, coded, split, free) = append-cut k s a b h in cc (split, Char-path c d (cc (coded, e)))

-- The code of a letter of ASCII in lower case.
abbrev lower_code : ℕ → ℕ
lower_code c = if leb b'A' c && leb c b'Z' then c + 32 else c

-- `s.lower() == t`, for a text `t` of ASCII without `k`, to which a sign outside ASCII lowers
unfoldable pub lowers_to : String → String → Bool
lowers_to [] [] = true
lowers_to [] (d ∷ t) = false
lowers_to (c ∷ s) [] = false
lowers_to (c ∷ s) (d ∷ t) = eqb (lower_code (code c)) (code d) && lowers_to s t

-- `has_non_ascii` of encoding/detect.py
unfoldable pub has_non_ascii : String → Bool
has_non_ascii [] = false
has_non_ascii (c ∷ s) = leb 128 (code c) || has_non_ascii s
