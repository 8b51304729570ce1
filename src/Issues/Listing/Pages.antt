-- ===== src/Issues/Listing/Pages.antt =====
-- Reading a listing page by page gives every row once.
use Prim.Native.Nat.{min}
use issuekit.Prelude.{
  ℕ, zero, suc, ◌+◌, ◌<◌, ◌≡◌, refl, false, some, List, [], ◌∷◌, ◌++◌, leb, ltb, ok, take, drop,
  length, arith, Bool-cases, inl, inr, ap, ◌∙◌, sym, if◌then◌else◌,
}
use mathlib.Core.List.{append_assoc}
use issuekit.Issues.Row.{Issue}
use issuekit.Issues.Server.{FakeIssueSurface}
use issuekit.Issues.Listing.{Query, matching, list_issues, pages, list_all_issues}

take_all : (n : ℕ) (xs : List Issue) → length (take n xs) < n → take n xs ≡ xs
take_all zero xs h = elim h [ ]
take_all (suc n) [] h = refl
take_all (suc n) (x ∷ xs) h = ap (x ∷◌) (take_all n xs (omega (arith, h)))

take-drop : (n : ℕ) (xs : List Issue) → take n xs ++ drop n xs ≡ xs
take-drop zero xs = refl
take-drop (suc n) [] = refl
take-drop (suc n) (x ∷ xs) = ap (x ∷◌) (take-drop n xs)

drop-empty : (n : ℕ) → drop {A = Issue} n [] ≡ []
drop-empty zero = refl
drop-empty (suc n) = refl

drop-drop : (n m : ℕ) (xs : List Issue) → drop m (drop n xs) ≡ drop (n + m) xs
drop-drop zero m xs = ap (λ k. drop k xs) (omega arith)
drop-drop (suc n) m [] = drop-empty m ∙ sym (drop-empty (suc n + m))
drop-drop (suc n) m (x ∷ xs) =
    let sum : suc (n + m) ≡ suc n + m = omega arith in
    drop-drop n m xs ∙ ap (λ k. drop k (x ∷ xs)) sum

length-take-drop : (n : ℕ) (xs : List Issue) → length (take n xs) + length (drop n xs) ≡ length xs
length-take-drop zero xs = omega arith
length-take-drop (suc n) [] = refl
length-take-drop (suc n) (x ∷ xs) = omega (arith, length-take-drop n xs)

module _ (q : Query) (page_size : ℕ) (s : FakeIssueSurface) where
  pages-rest :
      (fuel offset : ℕ) (issues : List Issue)
      → 0 < page_size
      → length (drop offset (matching q s)) < fuel
      → pages q page_size s fuel offset issues ≡ some (issues ++ drop offset (matching q s))
  unfolding pages list_issues
  pages-rest zero offset issues size h = elim h [ ]
  pages-rest (suc fuel) offset issues size h =
      let left = drop offset (matching q s) in
      let batch = take page_size left in
      elim (Bool-cases (ltb (length batch) page_size)) [
        | inl short ↦
            rw (short, if◌then◌else◌)
              (ap (λ xs. some (issues ++ xs)) (take_all page_size left (ground arith)))
        | inr full ↦
            let split = length-take-drop page_size left in
            let next = drop-drop offset page_size (matching q s) in
            let page : length (drop page_size left) < fuel = ground arith in
            let fewer : length (drop (offset + page_size) (matching q s)) < fuel =
              rw next at page in
            rw (full, if◌then◌else◌)
              (pages-rest fuel (offset + page_size) (issues ++ batch) size fewer
                ∙ ap some (
                    append_assoc issues batch (drop (offset + page_size) (matching q s))
                    ∙ ap (λ xs. issues ++ (batch ++ xs)) (sym next)
                    ∙ ap (λ xs. issues ++ xs) (take-drop page_size left)))
      ]

-- For a page size above zero, reading page after page returns, and it gives the rows that the query
-- asks for, sorted by id, whatever the page size.
pub list_all_issues-matching :
    (q : Query) (page_size : ℕ) (s : FakeIssueSurface)
    → 0 < page_size
    → list_all_issues q page_size s ≡ some (ok (matching q s))
unfolding list_all_issues
list_all_issues-matching q page_size s size =
    let positive : leb page_size 0 ≡ false = ground arith in
    rw
      (
        positive,
        pages-rest q (min page_size 500) s (suc (length (matching q s))) 0 [] (omega (arith, size))
            (omega arith),
        if◌then◌else◌,
      )
      refl
