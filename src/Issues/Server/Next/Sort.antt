-- ===== src/Issues/Server/Next/Sort.antt =====
-- `sorted` and the comprehension of candidates: what they hold, and what comes first.
use mathlib.Core.Path.{subst}
use issuekit.Prelude.{
  ◌≡◌, refl, Bool, true, List, [], ◌∷◌, if◌then◌else◌, arith, In, here, there, select, inl, inr,
  Bool-cases, ◌||◌,
}
use issuekit.Issues.Row.{Issue}
use issuekit.Issues.Server.Next.{insert, sorted, is_before}

In-tail : {x y : Issue} {xs ys : List Issue} → (In x xs → In x ys) → In x (y ∷ xs) → In x (y ∷ ys)
In-tail f here = here
In-tail f (there i) = there (f i)

In-swap : {x y z : Issue} {xs : List Issue} → In x (y ∷ z ∷ xs) → In x (z ∷ y ∷ xs)
In-swap here = there here
In-swap (there here) = here
In-swap (there (there i)) = there (there i)

In-kept :
    (test : Issue → Bool) {x y : Issue} {xs ys : List Issue}
    → test y ≡ true
    → (In x xs → In x ys × (test x ≡ true))
    → In x (y ∷ xs)
    → In x (y ∷ ys) × (test x ≡ true)
In-kept test passed more here = (here, passed)
In-kept test passed more (there i) = let (found, holds) = more i in (there found, holds)

pub In-select :
    (test : Issue → Bool) (xs : List Issue) {x : Issue}
    → In x (select test xs)
    → In x xs × (test x ≡ true)
In-select test [] i = elim i [ ]
In-select test (y ∷ xs) {x} i = elim (Bool-cases (test y)) [
  | inl holds_here ↦
      In-kept test holds_here (In-select test xs) (rw (holds_here, if◌then◌else◌) at i)
  | inr fails ↦
      let (found, holds) = In-select test xs {x = x} (rw (fails, if◌then◌else◌) at i) in
      (there found, holds)
]

In-insert :
    (before : Issue → Issue → Bool) (y : Issue) (xs : List Issue) {x : Issue}
    → In x (insert before y xs)
    → In x (y ∷ xs)
unfolding insert
In-insert before y [] i = i
In-insert before y (z ∷ xs) {x} i = elim (Bool-cases (before y z)) [
  | inl holds_here ↦ rw (holds_here, if◌then◌else◌) at i
  | inr fails ↦ In-swap (In-tail (In-insert before y xs) (rw (fails, if◌then◌else◌) at i))
]

pub In-sorted :
    (before : Issue → Issue → Bool) (xs : List Issue) {x : Issue}
    → In x (sorted before xs)
    → In x xs
unfolding sorted
In-sorted before [] i = i
In-sorted before (y ∷ xs) i =
    In-tail (In-sorted before xs) (In-insert before y (sorted before xs) i)

-- The first of a list is before every element.
pub IsFirst : Issue → List Issue → Type 0
IsFirst x [] = Unit
IsFirst x (y ∷ ys) = (is_before x y ≡ true) × IsFirst x ys

pub is_before_total : (a b : Issue) → (is_before a b || is_before b a) ≡ true
unfolding is_before
is_before_total a b = ground arith

is_before_trans :
    (a b c : Issue) → is_before a b ≡ true → is_before b c ≡ true → is_before a c ≡ true
unfolding is_before
is_before_trans a b c p q = ground arith

is_before_refl : (a : Issue) → is_before a a ≡ true
unfolding is_before
is_before_refl a = ground arith

IsFirst-before :
    (a b : Issue) (xs : List Issue) → is_before a b ≡ true → IsFirst b xs → IsFirst a xs
unfolding IsFirst
IsFirst-before a b [] p h = tt
IsFirst-before a b (x ∷ xs) p (first, h) =
    (is_before_trans a b x p first, IsFirst-before a b xs p h)

insert-nonempty : (y : Issue) (xs : List Issue) → insert is_before y xs ≡ [] → ⊥
unfolding insert
insert-nonempty y [] e = cc
insert-nonempty y (z ∷ xs) e = ground arith

pub sorted-empty : (xs : List Issue) → sorted is_before xs ≡ [] → xs ≡ []
unfolding sorted
sorted-empty [] e = refl
sorted-empty (y ∷ xs) e = absurd (insert-nonempty y (sorted is_before xs) e)

insert-IsFirst :
    (y : Issue) (xs t : List Issue) {x : Issue} {rest : List Issue}
    → (t ≡ [] → xs ≡ [])
    → ((z : Issue) (t' : List Issue) → t ≡ z ∷ t' → IsFirst z xs)
    → insert is_before y t ≡ x ∷ rest
    → IsFirst x (y ∷ xs)
unfolding insert IsFirst
insert-IsFirst y xs [] {x} empty first e =
    let none_left = empty refl in
    let same : y ≡ x = cc e in
    subst (λ z. IsFirst z (y ∷ xs)) same (is_before_refl y, rw none_left tt)
insert-IsFirst y xs (z ∷ t) {x} {rest} empty first e = elim (Bool-cases (is_before y z)) [
  | inl holds_here ↦
      let e' : ◌≡◌ {A = List Issue} (y ∷ z ∷ t) (x ∷ rest) = rw (holds_here, if◌then◌else◌) at e in
      let same : y ≡ x = cc e' in
      subst (λ z. IsFirst z (y ∷ xs)) same
        (is_before_refl y, IsFirst-before y z xs holds_here (first z t refl))
  | inr fails ↦
      let e' : ◌≡◌ {A = List Issue} (z ∷ insert is_before y t) (x ∷ rest) =
        rw (fails, if◌then◌else◌) at e in
      let same : z ≡ x = cc e' in
      let total = is_before_total y z in
      subst (λ z. IsFirst z (y ∷ xs)) same (ground arith, first z t refl)
]

-- The head of a sorted list is before every element of the list.
pub sorted-IsFirst :
    (xs : List Issue) (x : Issue) (rest : List Issue)
    → sorted is_before xs ≡ x ∷ rest
    → IsFirst x xs
unfolding sorted IsFirst
sorted-IsFirst [] x rest e = tt
sorted-IsFirst (y ∷ xs) x rest e =
    insert-IsFirst y xs (sorted is_before xs) (sorted-empty xs) (sorted-IsFirst xs) e
