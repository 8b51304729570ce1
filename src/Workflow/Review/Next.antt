-- ===== src/Workflow/Review/Next.antt =====
-- The next review is the first by id of those that are not excluded.
use mathlib.Core.Path.{subst}
use issuekit.Prelude.{
  ℕ, ◌≤◌, ◌≡◌, refl, ap, sym, ◌∙◌, Option-cases, Bool, true, false, not, Option, some, List, [],
  ◌∷◌, ◌++◌, if◌then◌else◌, eqb, ltb, is_empty, select, any, arith, In, here, there, inl, inr,
  Bool-cases,
}
use issuekit.Workflow.Transitions.{Issue}
use issuekit.Workflow.Review.{
  id_of, by_id, insert_issue, sorted_issues, has_id, is_issue_id, first_issue, pick_review,
  with_open,
}

-- The ids of the list do not decrease, and are all `bound` at least.
abbrev Ascending : ℕ → List Issue → Type 0
Ascending bound [] = Unit
Ascending bound (issue ∷ issues) = (bound ≤ id_of issue) × Ascending (id_of issue) issues

Ascending-weaken : (a b : ℕ) (issues : List Issue) → a ≤ b → Ascending b issues → Ascending a issues
Ascending-weaken a b [] le up = tt
Ascending-weaken a b (issue ∷ issues) le (least, up) = (omega arith, up)

insert_issue-Ascending :
    (bound : ℕ) (issue : Issue) (issues : List Issue)
    → bound ≤ id_of issue
    → Ascending bound issues
    → Ascending bound (insert_issue issue issues)
unfolding insert_issue
insert_issue-Ascending bound issue [] le up = (le, tt)
insert_issue-Ascending bound issue (other ∷ others) le (least, up) =
    elim (Bool-cases (ltb (id_of other) (id_of issue))) [
      | inl before ↦
          rw before (least, insert_issue-Ascending (id_of other) issue others (ground arith) up)
      | inr after ↦ rw after (le, (ground arith, up))
    ]

sorted_issues-Ascending : (issues : List Issue) → Ascending 0 (sorted_issues issues)
unfolding sorted_issues
sorted_issues-Ascending [] = tt
sorted_issues-Ascending (issue ∷ issues) =
    insert_issue-Ascending 0 issue (sorted_issues issues) (omega arith)
      (sorted_issues-Ascending issues)

Ascending-In :
    (bound : ℕ) (issues : List Issue) {issue : Issue}
    → Ascending bound issues
    → In issue issues
    → bound ≤ id_of issue
Ascending-In bound [] up i = elim i [ ]
Ascending-In bound (issue ∷ issues) (least, up) here = least
Ascending-In bound (issue ∷ issues) (least, up) (there i) =
    let rest = Ascending-In (id_of issue) issues up i in omega arith

first-least :
    (test : Issue → Bool) (bound : ℕ) (issues : List Issue) {first other : Issue}
    → Ascending bound issues
    → first_issue (select test issues) ≡ some first
    → In other issues
    → test other ≡ true
    → id_of first ≤ id_of other
first-least test bound [] up found i passed = elim i [ ]
first-least test bound (issue ∷ issues) {first} {other} up found here passed =
    let e : ◌≡◌ {A = Option Issue} (some issue) (some first) =
      rw (passed, if◌then◌else◌) at found in
    let same : issue ≡ first = cc in omega (arith, ap id_of same)
first-least test bound (issue ∷ issues) {first} {other} (least, up) found (there i) passed =
    elim (Bool-cases (test issue)) [
      | inl holds ↦
          let e : ◌≡◌ {A = Option Issue} (some issue) (some first) =
            rw (holds, if◌then◌else◌) at found in
          let same : issue ≡ first = cc in
          omega (arith, ap id_of same, Ascending-In (id_of issue) issues up i)
      | inr fails ↦
          first-least test (id_of issue) issues up (rw (fails, if◌then◌else◌) at found) i passed
    ]

first-select :
    (test : Issue → Bool) (issues : List Issue) {first : Issue}
    → first_issue (select test issues) ≡ some first
    → In first issues × (test first ≡ true)
first-select test [] {first} found = cc
first-select test (issue ∷ issues) {first} found = elim (Bool-cases (test issue)) [
  | inl holds ↦
      let e : ◌≡◌ {A = Option Issue} (some issue) (some first) =
        rw (holds, if◌then◌else◌) at found in
      let same : issue ≡ first = cc in
      (subst (λ x. In x (issue ∷ issues)) same here, ap test (sym same) ∙ holds)
  | inr fails ↦
      let (i, holds) = first-select test issues (rw (fails, if◌then◌else◌) at found) in
      (there i, holds)
]

is_issue_id-In :
    (issues : List Issue) {issue : Issue} (n : ℕ)
    → In issue issues
    → issue.id ≡ some n
    → is_issue_id issues n ≡ true
is_issue_id-In [] n i e = elim i [ ]
is_issue_id-In (issue ∷ issues) n here e = rw e (ground arith)
is_issue_id-In (issue ∷ issues) n (there i) e = ground (arith, is_issue_id-In issues n i e)

any-select :
    (issues : List Issue) (n : ℕ) (ids : List ℕ)
    → is_issue_id issues n ≡ true
    → any (eqb n) (select (is_issue_id issues) ids) ≡ any (eqb n) ids
any-select issues n [] listed = refl
any-select issues n (m ∷ ids) listed = elim (Bool-cases (eqb n m)) [
  | inl same ↦
      let kept : is_issue_id issues m ≡ true =
        subst (λ k. is_issue_id issues k ≡ true) (ground arith) listed in
      rw kept (ground (arith, any-select issues n ids listed))
  | inr other ↦ elim (Bool-cases (is_issue_id issues m)) [
    | inl kept ↦ rw kept (ground (arith, any-select issues n ids listed))
    | inr dropped ↦ rw dropped (ground (arith, any-select issues n ids listed))
  ]
]

-- Dropping the ids that are in no issue of the list excludes the same issues of the list.
has_id-left :
    (issues : List Issue) (exclude_ids : List ℕ) {issue : Issue}
    → In issue issues
    → has_id (select (is_issue_id issues) exclude_ids) issue.id ≡ has_id exclude_ids issue.id
has_id-left issues exclude_ids {issue} i = elim (Option-cases issue.id) [
  | inl unnumbered ↦ rw unnumbered refl
  | inr (n, numbered) ↦
      rw numbered (any-select issues n exclude_ids (is_issue_id-In issues n i numbered))
]

with_open-Ascending : (issues open_issues : List Issue) → Ascending 0 (with_open issues open_issues)
unfolding with_open
with_open-Ascending issues open_issues =
    sorted_issues-Ascending
      (by_id [] (issues ++ select (λ (issue : Issue). is_empty issue.assignee) open_issues))

-- With the open reviews taken in, the review that is picked is a candidate that is not excluded, and
-- none of the candidates that are not excluded has a smaller id.
pub pick_review-least :
    (issues open_issues : List Issue) (exclude_ids : List ℕ) {first other : Issue}
    → (pick_review (with_open issues open_issues) (some exclude_ids)).0 ≡ some first
    → In other (with_open issues open_issues)
    → has_id exclude_ids other.id ≡ false
    → In first (with_open issues open_issues)
      × (has_id exclude_ids first.id ≡ false)
      × (id_of first ≤ id_of other)
unfolding pick_review
pick_review-least issues open_issues exclude_ids {first} {other} found i passed =
    let all = with_open issues open_issues in
    let left = select (is_issue_id all) exclude_ids in
    let test : Issue → Bool = λ issue. not (has_id left issue.id) in
    let (at, holds) = first-select test all found in
    let kept = has_id-left all exclude_ids at in
    let still = has_id-left all exclude_ids i in
    (
      at,
      ground arith,
      first-least test 0 all (with_open-Ascending issues open_issues) found i (ground arith),
    )
