-- ===== src/Encoding/Bisect.antt =====
-- About `bisect_right` on ascending numbers.
use Prim.Native.Nat.{◌/◌}
use issuekit.Prelude.{
  ℕ, zero, suc, ◌+◌, ◌<◌, ◌≤◌, List, [], ◌∷◌, if◌then◌else◌, ◌≡◌, sym, leb, ltb, length, arith, inl,
  inr, Bool-cases, Ascending,
}
use issuekit.Encoding.Lines.{offset_at, bisect_between, bisect_right}

-- The numbers up to a bound.
abbrev pub count_to : ℕ → List ℕ → ℕ
count_to index [] = 0
count_to index (x ∷ xs) = if leb x index then suc (count_to index xs) else count_to index xs

-- A split of the list at `r`: those before are up to the bound, the others are not.
abbrev pub IsSplit : ℕ → List ℕ → ℕ → Type 0
IsSplit index xs r =
    (r ≤ length xs)
    × ((j : ℕ) → j < r → offset_at j xs ≤ index)
    × ((j : ℕ) → r ≤ j → j < length xs → index < offset_at j xs)

count_to-IsSplit : (index : ℕ) (xs : List ℕ) (r : ℕ) → IsSplit index xs r → count_to index xs ≡ r
unfolding offset_at
count_to-IsSplit index [] r (le, low, high) = omega arith
count_to-IsSplit index (x ∷ xs) zero (le, low, high) =
    let ih = count_to-IsSplit index xs zero (
      omega arith,
      λ j lt. absurd (omega arith),
      λ j ge lt. high (suc j) (omega arith) (omega arith),
    ) in
    let above = high 0 (omega arith) (omega arith) in ground arith
count_to-IsSplit index (x ∷ xs) (suc r) (le, low, high) =
    let ih = count_to-IsSplit index xs r (
      omega arith,
      λ j lt. low (suc j) (omega arith),
      λ j ge lt. high (suc j) (omega arith) (omega arith),
    ) in
    let below = low 0 (omega arith) in ground arith

offset_at-bound :
    (bound j : ℕ) (xs : List ℕ) → Ascending bound xs → j < length xs → bound ≤ offset_at j xs
unfolding offset_at
offset_at-bound bound j [] up lt = absurd (omega arith)
offset_at-bound bound zero (x ∷ xs) (least, up) lt = least
offset_at-bound bound (suc j) (x ∷ xs) (least, up) lt =
    let ih = offset_at-bound (suc x) j xs up (omega arith) in omega arith

offset_at_mono :
    (bound j k : ℕ) (xs : List ℕ)
    → Ascending bound xs
    → j ≤ k
    → k < length xs
    → offset_at j xs ≤ offset_at k xs
unfolding offset_at
offset_at_mono bound j k [] up le lt = absurd (omega arith)
offset_at_mono bound zero zero (x ∷ xs) up le lt = omega arith
offset_at_mono bound zero (suc k) (x ∷ xs) (least, up) le lt =
    let ih = offset_at-bound (suc x) k xs up (omega arith) in omega arith
offset_at_mono bound (suc j) zero (x ∷ xs) up le lt = absurd (omega arith)
offset_at_mono bound (suc j) (suc k) (x ∷ xs) (least, up) le lt =
    offset_at_mono (suc x) j k xs up (omega arith) (omega arith)

bisect_between-IsSplit :
    (fuel : ℕ) (xs : List ℕ) (index low high bound : ℕ)
    → Ascending bound xs
    → high ≤ low + fuel
    → low ≤ high
    → high ≤ length xs
    → ((j : ℕ) → j < low → offset_at j xs ≤ index)
    → ((j : ℕ) → high ≤ j → j < length xs → index < offset_at j xs)
    → IsSplit index xs (bisect_between fuel xs index (low, high))
unfolding bisect_between
bisect_between-IsSplit zero xs index low high bound up enough le within below above =
    (omega arith, below, λ j ge lt. above j (omega arith) lt)
bisect_between-IsSplit (suc fuel) xs index low high bound up enough le within below above =
    elim (Bool-cases (ltb low high)) [
      | inr done ↦ rw done (ground arith, below, λ j ge lt. above j (ground arith) lt)
      | inl more ↦
          let middle = (low + high) / 2 in
          let lt : low < high = ground arith in
          let between : (low ≤ middle) × (middle < high) = (omega arith, omega arith) in
          elim (Bool-cases (ltb index (offset_at middle xs))) [
            | inl greater ↦
                rw (more, greater)
                  (bisect_between-IsSplit fuel xs index low middle bound up (omega arith) between.0
                    (omega arith) below
                    (λ j ge lt. let m = offset_at_mono bound middle j xs up ge lt in ground arith))
            | inr upto ↦
                rw (more, upto)
                  (bisect_between-IsSplit fuel xs index (middle + 1) high bound up (omega arith)
                    (omega arith) within
                    (λ j lt.
                      let m = offset_at_mono bound j middle xs up (omega arith) (omega arith) in
                      ground arith)
                    above)
          ]
    ]

pub bisect_right-count_to :
    (xs : List ℕ) (index bound : ℕ) → Ascending bound xs → bisect_right xs index ≡ count_to index xs
unfolding bisect_right
bisect_right-count_to xs index bound up = sym (
    count_to-IsSplit index xs (bisect_between (length xs) xs index (0, length xs)) (
      bisect_between-IsSplit (length xs) xs index 0 (length xs) bound up (omega arith) (omega arith)
        (omega arith) (λ j lt. absurd (omega arith)) (λ j ge lt. absurd (omega arith))))
