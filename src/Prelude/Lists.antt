-- ===== src/Prelude/Lists.antt =====
-- Lists measured by native numbers, and the loops that the program writes as comprehensions.
use Prim.Native.Nat.{ℕ, zero, suc, ◌≤◌}
use native.Mathlib.Omega.{arith}
use mathlib.Core.Bool.{Bool, false, ◌||◌}
use mathlib.Core.Option.{Option, none, some}
use mathlib.Core.List.{List, [], ◌∷◌}
use issuekit.Prelude.Tests.{if◌then◌else◌}

module _ {ℓ} {A : Type ℓ} where
  abbrev pub length : List A → ℕ
  length [] = 0
  length (x ∷ xs) = suc (length xs)

  abbrev pub take : ℕ → List A → List A
  take zero xs = []
  take (suc n) [] = []
  take (suc n) (x ∷ xs) = x ∷ take n xs

  abbrev pub drop : ℕ → List A → List A
  drop zero xs = xs
  drop (suc n) [] = []
  drop (suc n) (x ∷ xs) = drop n xs

  -- `any(test(x) for x in xs)`
  abbrev pub any : (A → Bool) → List A → Bool
  any test [] = false
  any test (x ∷ xs) = test x || any test xs

  -- `[x for x in xs if test(x)]`
  abbrev pub select : (A → Bool) → List A → List A
  select test [] = []
  select test (x ∷ xs) = let rest = select test xs in if test x then x ∷ rest else rest

  -- `xs[-1]`, if there is one
  abbrev pub last? : List A → Option A
  last? [] = none
  last? (x ∷ []) = some x
  last? (x ∷ y ∷ xs) = last? (y ∷ xs)

  -- A predicate of every element.
  abbrev pub All {κ} : (A → Type κ) → List A → Type κ
  All P [] = Unit
  All P (x ∷ xs) = P x × All P xs

  -- An element, with its place in the list.
  pub data In (a : A) : List A → Type ℓ where
    here : {xs : List A} → In a (a ∷ xs)
    there : {x : A} {xs : List A} → In a xs → In a (x ∷ xs)

-- Strictly ascending numbers, all of them `bound` at least.
abbrev pub Ascending : ℕ → List ℕ → Type 0
Ascending bound [] = Unit
Ascending bound (x ∷ xs) = (bound ≤ x) × Ascending (suc x) xs

pub Ascending-weaken : (a b : ℕ) (xs : List ℕ) → a ≤ b → Ascending b xs → Ascending a xs
Ascending-weaken a b [] le up = tt
Ascending-weaken a b (x ∷ xs) le (least, up) = (omega arith, up)
