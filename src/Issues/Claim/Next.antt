-- ===== src/Issues/Claim/Next.antt =====
-- What `claim_next` claims, and when it claims nothing.
use issuekit.Prelude.{
  String, ◌≡◌, refl, true, Option, none, some, List, [], ◌∷◌, arith, In, here, ok, err, Error,
  workflow, inl, inr, Result-cases, ◌∙◌, ap, sym, ◌⊎◌,
}
use mathlib.Core.Path.{subst}
use issuekit.Issues.Row.{Issue}
use issuekit.Issues.Server.{FakeIssueSurface, store}
use issuekit.Issues.Server.Work.{Claimant, claim_checks, claim_issue}
use issuekit.Issues.Server.Next.{
  candidates, is_candidate, is_before, sorted, claim_first, claim_next, values,
}
use issuekit.Issues.Server.Next.Sort.{IsFirst, In-select, In-sorted, sorted-IsFirst, sorted-empty}

candidate-checks :
    (c : Claimant) (priority : Option String) (i : Issue)
    → is_candidate c priority i ≡ true
    → claim_checks c i ≡ ok tt
unfolding claim_checks is_candidate
candidate-checks c priority i h = ground arith

checked-err :
    (c : Claimant) (i : Issue) {e : Error}
    → claim_checks c i ≡ ok tt
    → claim_issue c i ≡ err e
    → e ≡ workflow "forbidden_self_implement"
unfolding claim_issue
checked-err c i passed refused = ground arith

List-cases : (xs : List Issue) → (xs ≡ []) ⊎ ((x : Issue) × (rest : List Issue) × (xs ≡ x ∷ rest))
List-cases [] = inl refl
List-cases (x ∷ xs) = inr (x, xs, refl)

-- The issue that `claim_next` claims.
pub record IsBest (c : Claimant) (priority : Option String) (s s' : FakeIssueSurface) (r i : Issue)
    : Type 0 where
  pub candidate : In i (candidates c priority s.issues)
  pub first : IsFirst i (candidates c priority s.issues)
  pub granted : claim_issue c i ≡ ok r
  pub written : s'.issues ≡ store i.id r s.issues

module _ (c : Claimant) (priority : Option String) where
  first-In :
      (s : FakeIssueSurface) {i : Issue} {rest : List Issue}
      → sorted is_before (candidates c priority s.issues) ≡ i ∷ rest
      → In i (candidates c priority s.issues)
  first-In s {i} first =
      In-sorted is_before (candidates c priority s.issues) (subst (In i) (sym first) here)

  candidate-is :
      (s : FakeIssueSurface) {i : Issue}
      → In i (candidates c priority s.issues)
      → is_candidate c priority i ≡ true
  unfolding candidates
  candidate-is s i = (In-select (is_candidate c priority) (values s.issues) i).1

  -- When `claim_next` gives an issue, that is what `_claim_issue` makes of a candidate that no
  -- candidate precedes by (rank, id), and the row is written under the candidate's id.
  pub claim_next-IsBest :
      (s : FakeIssueSurface) {r : Issue}
      → (claim_next c priority s).0 ≡ ok (some r)
      → (i : Issue) × IsBest c priority s (claim_next c priority s).1 r i
  unfolding claim_next claim_first
  claim_next-IsBest s {r} h =
      elim (List-cases (sorted is_before (candidates c priority s.issues))) [
        | inl empty ↦ absurd (ground arith)
        | inr (i, rest, first) ↦ elim (Result-cases (claim_issue c i)) [
          | inr (e, refused) ↦ absurd (ground arith)
          | inl (new, made) ↦
              let same : new ≡ r = ground arith in
              (
                i,
                record {
                  candidate = first-In s first;
                  first = sorted-IsFirst (candidates c priority s.issues) i rest first;
                  granted = made ∙ ap ok same;
                  written = rw (first, claim_first, made, same) refl;
                },
              )
        ]
      ]

  -- When `claim_next` gives none, there is no candidate.
  pub claim_next-none :
      (s : FakeIssueSurface)
      → (claim_next c priority s).0 ≡ ok none
      → candidates c priority s.issues ≡ []
  unfolding claim_next claim_first
  claim_next-none s h = elim (List-cases (sorted is_before (candidates c priority s.issues))) [
    | inl empty ↦ sorted-empty (candidates c priority s.issues) empty
    | inr (i, rest, first) ↦ elim (Result-cases (claim_issue c i)) [
      | inr (e, refused) ↦ absurd (ground arith)
      | inl (new, made) ↦ absurd (ground arith)
    ]
  ]

  -- When `claim_next` raises, it is with the code `forbidden_self_implement`.
  pub claim_next-error :
      (s : FakeIssueSurface) {e : Error}
      → (claim_next c priority s).0 ≡ err e
      → e ≡ workflow "forbidden_self_implement"
  unfolding claim_next claim_first
  claim_next-error s {e} h = elim (List-cases (sorted is_before (candidates c priority s.issues))) [
    | inl empty ↦ absurd (ground arith)
    | inr (i, rest, first) ↦ elim (Result-cases (claim_issue c i)) [
      | inl (new, made) ↦ absurd (ground arith)
      | inr (e', refused) ↦
          let passed = candidate-checks c priority i (candidate-is s (first-In s first)) in
          let same : e' ≡ e = ground arith in sym same ∙ checked-err c i passed refused
    ]
  ]
