-- ===== src/Workflow/Review/Ids.antt =====
-- Taking in the open reviews loses no id and adds none.
use issuekit.Prelude.{
  ℕ, ◌≡◌, refl, Bool, ◌||◌, List, [], ◌∷◌, ◌++◌, eqb, is_empty, select, any, arith, ◌∙◌,
}
use issuekit.Workflow.Transitions.{Issue}
use issuekit.Workflow.Review.{id_of, put_issue, by_id, insert_issue, sorted_issues, with_open}

module _ (n : ℕ) where
  -- Some issue of the list has the id.
  abbrev pub holds_id : List Issue → Bool
  holds_id issues = any (λ (issue : Issue). eqb (id_of issue) n) issues

  holds_id-put :
      (issue : Issue) (issues : List Issue)
      → holds_id (put_issue issue issues) ≡ (eqb (id_of issue) n || holds_id issues)
  unfolding put_issue
  holds_id-put issue [] = ground arith
  holds_id-put issue (other ∷ others) = ground (arith, holds_id-put issue others)

  holds_id-by_id :
      (acc issues : List Issue) → holds_id (by_id acc issues) ≡ (holds_id acc || holds_id issues)
  unfolding by_id
  holds_id-by_id acc [] = ground arith
  holds_id-by_id acc (issue ∷ issues) =
      ground (arith, holds_id-by_id (put_issue issue acc) issues, holds_id-put issue acc)

  holds_id-insert :
      (issue : Issue) (issues : List Issue)
      → holds_id (insert_issue issue issues) ≡ (eqb (id_of issue) n || holds_id issues)
  unfolding insert_issue
  holds_id-insert issue [] = ground arith
  holds_id-insert issue (other ∷ others) = ground (arith, holds_id-insert issue others)

  holds_id-sorted : (issues : List Issue) → holds_id (sorted_issues issues) ≡ holds_id issues
  unfolding sorted_issues
  holds_id-sorted [] = refl
  holds_id-sorted (issue ∷ issues) =
      ground (arith, holds_id-insert issue (sorted_issues issues), holds_id-sorted issues)

-- The reviews that are picked from have just the ids of the reviewer's own reviews and of the open
-- reviews that are assigned to nobody.
pub holds_id-with_open :
    (n : ℕ) (issues open_issues : List Issue)
    → holds_id n (with_open issues open_issues)
      ≡ holds_id n (issues ++ select (λ (issue : Issue). is_empty issue.assignee) open_issues)
unfolding with_open
holds_id-with_open n issues open_issues =
    let all = issues ++ select (λ (issue : Issue). is_empty issue.assignee) open_issues in
    holds_id-sorted n (by_id [] all) ∙ holds_id-by_id n [] all
