-- ===== src/Prelude/Decimal.antt =====
-- `str(n)` for a natural number.
use Prim.Native.Nat.{ℕ, zero, suc, ◌+◌, ◌-◌, ◌*◌, ◌/◌, ◌%◌, ◌<◌, ◌≤◌}
use Prim.Native.Char.{Char, code}
use Prim.Native.String.{String, [], ◌∷◌}
use mathlib.Core.Path.{◌≡◌, refl, sym, ◌∙◌, ap}
use text.Mathlib.TextEquality.{eq_iff}
use mathlib.Core.Logic.{◌≢◌, inl, inr}
use native.Mathlib.Omega.{arith}
use mathlib.Core.Bool.{Bool, false, ◌&&◌, not, true}
use issuekit.Prelude.Text.{has_char, is_space, lstrip, rstrip, strip, rstrip-cons}
use issuekit.Prelude.Tests.{is_empty, eqb, if◌then◌else◌, ltb, Bool-cases}

digit : ℕ → Char
digit zero = "0"
digit (suc zero) = "1"
digit (suc (suc zero)) = "2"
digit (suc (suc (suc zero))) = "3"
digit (suc (suc (suc (suc zero)))) = "4"
digit (suc (suc (suc (suc (suc zero))))) = "5"
digit (suc (suc (suc (suc (suc (suc zero)))))) = "6"
digit (suc (suc (suc (suc (suc (suc (suc zero))))))) = "7"
digit (suc (suc (suc (suc (suc (suc (suc (suc zero)))))))) = "8"
digit (suc (suc (suc (suc (suc (suc (suc (suc (suc n))))))))) = "9"

-- One round for each digit; `fuel` bounds their number.
show_before : ℕ → ℕ → String → String
show_before zero n rest = rest
show_before (suc fuel) n rest =
    let more = show_before fuel (n / 10) (digit (n % 10) ∷ rest) in
    if ltb n 10 then digit n ∷ rest else more

unfoldable pub show : ℕ → String
unfolding show_before digit
show n = show_before (suc n) n []

-- The number that a text of digits continues `acc` to.
unfoldable pub read_after : ℕ → String → ℕ
read_after acc [] = acc
read_after acc (c ∷ s) = read_after (acc * 10 + (code c - 48)) s

code-digit : (n : ℕ) → n < 10 → code (digit n) - 48 ≡ n
unfolding digit
code-digit zero h = refl
code-digit (suc zero) h = refl
code-digit (suc (suc zero)) h = refl
code-digit (suc (suc (suc zero))) h = refl
code-digit (suc (suc (suc (suc zero)))) h = refl
code-digit (suc (suc (suc (suc (suc zero))))) h = refl
code-digit (suc (suc (suc (suc (suc (suc zero)))))) h = refl
code-digit (suc (suc (suc (suc (suc (suc (suc zero))))))) h = refl
code-digit (suc (suc (suc (suc (suc (suc (suc (suc zero)))))))) h = refl
code-digit (suc (suc (suc (suc (suc (suc (suc (suc (suc n))))))))) h = omega arith

read-show_before :
    (fuel n : ℕ) (rest : String)
    → n < fuel
    → read_after 0 (show_before fuel n rest) ≡ read_after n rest
unfolding show_before read_after
read-show_before zero n rest h = elim h [ ]
read-show_before (suc fuel) n rest h = elim (Bool-cases (ltb n 10)) [
  | inl small ↦
      rw small (ap (λ k. read_after k rest) (let e = code-digit n (ground arith) in omega arith))
  | inr large ↦ rw large (
      read-show_before fuel (n / 10) (digit (n % 10) ∷ rest) (ground arith)
      ∙ ap (λ k. read_after k rest) (omega (arith, code-digit (n % 10) (omega arith))))
]

-- A written number is read back.
pub read-show : (n : ℕ) → read_after 0 (show n) ≡ n
unfolding show read_after
read-show n = read-show_before (suc n) n [] (omega arith)

pub show-injective : (n m : ℕ) → show n ≡ show m → n ≡ m
unfolding show read_after
show-injective n m e =
    sym (read-show_before (suc n) n [] (omega arith))
    ∙ ap (read_after 0) e
    ∙ read-show_before (suc m) m [] (omega arith)

digit-not-sharp : (n : ℕ) → eqb (code (digit n)) b'#' ≡ false
unfolding digit
digit-not-sharp zero = refl
digit-not-sharp (suc zero) = refl
digit-not-sharp (suc (suc zero)) = refl
digit-not-sharp (suc (suc (suc zero))) = refl
digit-not-sharp (suc (suc (suc (suc zero)))) = refl
digit-not-sharp (suc (suc (suc (suc (suc zero))))) = refl
digit-not-sharp (suc (suc (suc (suc (suc (suc zero)))))) = refl
digit-not-sharp (suc (suc (suc (suc (suc (suc (suc zero))))))) = refl
digit-not-sharp (suc (suc (suc (suc (suc (suc (suc (suc zero)))))))) = refl
digit-not-sharp (suc (suc (suc (suc (suc (suc (suc (suc (suc n))))))))) = refl

show_before-no_sharp :
    (fuel n : ℕ) (rest : String)
    → has_char b'#' rest ≡ false
    → has_char b'#' (show_before fuel n rest) ≡ false
unfolding show_before has_char
show_before-no_sharp zero n rest h = h
show_before-no_sharp (suc fuel) n rest h = ground (
  arith,
  digit-not-sharp n,
  digit-not-sharp (n % 10),
  show_before-no_sharp fuel (n / 10) (digit (n % 10) ∷ rest),
)

-- A number is written without `#`.
pub show-no_sharp : (n : ℕ) → has_char b'#' (show n) ≡ false
unfolding show has_char
show-no_sharp n = show_before-no_sharp (suc n) n [] refl

-- A text without spaces.
no_space : String → Bool
no_space [] = true
no_space (c ∷ s) = not (is_space (code c)) && no_space s

digit-not_space : (n : ℕ) → is_space (code (digit n)) ≡ false
unfolding digit is_space
digit-not_space zero = refl
digit-not_space (suc zero) = refl
digit-not_space (suc (suc zero)) = refl
digit-not_space (suc (suc (suc zero))) = refl
digit-not_space (suc (suc (suc (suc zero)))) = refl
digit-not_space (suc (suc (suc (suc (suc zero))))) = refl
digit-not_space (suc (suc (suc (suc (suc (suc zero)))))) = refl
digit-not_space (suc (suc (suc (suc (suc (suc (suc zero))))))) = refl
digit-not_space (suc (suc (suc (suc (suc (suc (suc (suc zero)))))))) = refl
digit-not_space (suc (suc (suc (suc (suc (suc (suc (suc (suc n))))))))) = refl

show_before-no_space :
    (fuel n : ℕ) (rest : String) → no_space rest ≡ true → no_space (show_before fuel n rest) ≡ true
unfolding show_before no_space
show_before-no_space zero n rest h = h
show_before-no_space (suc fuel) n rest h = ground (
  arith,
  digit-not_space n,
  digit-not_space (n % 10),
  show_before-no_space fuel (n / 10) (digit (n % 10) ∷ rest),
)

no_space-rstrip : (s : String) → no_space s ≡ true → rstrip s ≡ s
unfolding no_space rstrip
no_space-rstrip [] h = refl
no_space-rstrip (c ∷ s) h = rstrip-cons c s (ground arith) (no_space-rstrip s (ground arith))

no_space-lstrip : (s : String) → no_space s ≡ true → lstrip s ≡ s
unfolding no_space lstrip
no_space-lstrip [] h = refl
no_space-lstrip (c ∷ s) h = ground arith

-- Stripping leaves a written number alone.
pub show-strip : (n : ℕ) → strip (show n) ≡ show n
unfolding show strip no_space
show-strip n =
    let clean = show_before-no_space (suc n) n [] refl in
    rw (no_space-lstrip (show n) clean) (no_space-rstrip (show n) clean)

cons-not_empty : (c : Char) (s : String) → is_empty (c ∷ s) ≡ false
cons-not_empty c s = let ne : (c ∷ s) ≢ [] = cc in ground (arith, eq_iff (c ∷ s) [])

show_before-not_empty :
    (fuel n : ℕ) (rest : String)
    → is_empty rest ≡ false
    → is_empty (show_before fuel n rest) ≡ false
unfolding show_before
show_before-not_empty zero n rest h = h
show_before-not_empty (suc fuel) n rest h = ground (
  arith,
  cons-not_empty (digit n) rest,
  show_before-not_empty fuel (n / 10) (digit (n % 10) ∷ rest),
  cons-not_empty (digit (n % 10)) rest,
)

-- A written number is no empty text.
pub show-not_empty : (n : ℕ) → is_empty (show n) ≡ false
unfolding show show_before
show-not_empty n = ground (
  arith,
  cons-not_empty (digit n) [],
  cons-not_empty (digit (n % 10)) [],
  show_before-not_empty n (n / 10) (digit (n % 10) ∷ []),
)

digit-between : (n : ℕ) → (b'0' ≤ code (digit n)) × (code (digit n) ≤ b'9')
unfolding digit
digit-between zero = (omega arith, omega arith)
digit-between (suc zero) = (omega arith, omega arith)
digit-between (suc (suc zero)) = (omega arith, omega arith)
digit-between (suc (suc (suc zero))) = (omega arith, omega arith)
digit-between (suc (suc (suc (suc zero)))) = (omega arith, omega arith)
digit-between (suc (suc (suc (suc (suc zero))))) = (omega arith, omega arith)
digit-between (suc (suc (suc (suc (suc (suc zero)))))) = (omega arith, omega arith)
digit-between (suc (suc (suc (suc (suc (suc (suc zero))))))) = (omega arith, omega arith)
digit-between (suc (suc (suc (suc (suc (suc (suc (suc zero)))))))) = (omega arith, omega arith)
digit-between (suc (suc (suc (suc (suc (suc (suc (suc (suc n))))))))) = (omega arith, omega arith)

-- What holds of the empty text and stays true when a digit is put before a text holds of a written number.
module _ (P : String → Type 0)
    (step : (c : Char) (s : String) → b'0' ≤ code c → code c ≤ b'9' → P s → P (c ∷ s)) where
  step_digit : (n : ℕ) (s : String) → P s → P (digit n ∷ s)
  step_digit n s h = let (low, high) = digit-between n in step (digit n) s low high h

  show_before-induction : (fuel n : ℕ) (rest : String) → P rest → P (show_before fuel n rest)
  unfolding show_before
  show_before-induction zero n rest h = h
  show_before-induction (suc fuel) n rest h = elim (Bool-cases (ltb n 10)) [
    | inl small ↦ rw small (step_digit n rest h)
    | inr large ↦
        rw large
          (show_before-induction fuel (n / 10) (digit (n % 10) ∷ rest) (step_digit (n % 10) rest h))
  ]

  pub show-induction : (n : ℕ) → P [] → P (show n)
  unfolding show
  show-induction n h = show_before-induction (suc n) n [] h
