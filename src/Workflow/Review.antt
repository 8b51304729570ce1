-- ===== src/Workflow/Review.antt =====
-- workflow.py: handing an issue to review, sending it back, and finding the next review.
pub mod Next
pub mod Ids
use issuekit.Prelude.{
  ℕ, String, Bool, true, false, not, ◌&&◌, ◌||◌, Option, none, some, List, [], ◌∷◌, ◌++◌,
  if◌then◌else◌, ◌==◌, is_empty, eqb, leb, ltb, select, any, Result, ok, err, workflow, guard,
  ◌>>=◌, ◌>>◌,
}
use issuekit.Prelude.Text.{strip}
use issuekit.Prelude.Effects.{Effect, return, fail, lift, then_do}
use issuekit.Config.{IssuekitConfig, worker_key}
use issuekit.Guards.Author.{AuthorOrchestrationContext}
use issuekit.Workflow.{validate_assignee, resolve_reviewer}
use issuekit.Workflow.Transitions.{
  Issue, ReviewArguments, ChangesArguments, IssueStore, World, Checkout, Overrides, validate_stage,
  require_ascii, resolve_session,
}
use issuekit.Workflow.Claim.{on_store, local_guards, claim_session}

-- `if value is not None: validate_assignee(value, config)`
abbrev pub validate_optional : Option String → IssuekitConfig → Result (Unit {0})
validate_optional none config = ok tt
validate_optional (some value) config = validate_assignee value config

-- A reviewer that is given is stripped.
abbrev pub stripped : Option String → Option String
stripped none = none
stripped (some value) = some (strip value)

-- What a submission says, besides its issue, reviewer and session.
pub record Submission : Type 0 where
  pub summary : String
  pub branch : Option String
  pub commit : Option String
  pub agent_model : Option String
  pub agent_reasoning_effort : Option String

abbrev or_branch : Option String → Option String → Option String
or_branch none current = current
or_branch (some branch) current = some branch

module _ {S : Type 0} (api : IssueStore S) (config : IssuekitConfig) (checkout : Checkout) where
  unfoldable pub submit_checks :
      ℕ
      → Submission
      → Option String
      → Overrides
      → Option AuthorOrchestrationContext
      → Result (Unit {0})
  submit_checks issue_id submission reviewer overrides orchestration = do
    validate_stage "review" config
    validate_optional (stripped reviewer) config
    require_ascii (some submission.summary)
    require_ascii (or_branch submission.branch checkout.git.git_current_branch)
    require_ascii submission.commit
    local_guards config checkout (some issue_id) overrides orchestration

  abbrev review_arguments : Submission → Option String → Option String → ReviewArguments
  review_arguments submission reviewer session = record {
    summary = submission.summary;
    branch = or_branch submission.branch checkout.git.git_current_branch;
    commit = submission.commit;
    reviewer = stripped reviewer;
    session = session;
    agent_model = submission.agent_model;
    agent_reasoning_effort = submission.agent_reasoning_effort;
  }

  unfoldable pub submit_for_review :
      ℕ
      → Submission
      → Option String
      → Overrides
      → Option String
      → Option AuthorOrchestrationContext
      → Effect S Issue
  submit_for_review issue_id submission reviewer overrides session orchestration =
      then_do (lift (submit_checks issue_id submission reviewer overrides orchestration)) (λ _.
        then_do (lift (claim_session config checkout session orchestration)) (λ resolved.
          api.submit_for_review issue_id (review_arguments submission reviewer resolved)))

  unfoldable pub changes_checks : String → Option String → Option String → Result (Unit {0})
  changes_checks notes reviewer assignee = do
    validate_optional (stripped reviewer) config
    validate_optional assignee config
    validate_stage "changes_requested" config
    require_ascii (some notes)

  unfoldable pub request_changes :
      ℕ
      → String
      → Option String
      → Option String
      → Option String
      → Option String
      → Option String
      → Effect S Issue
  request_changes issue_id notes reviewer assignee session agent_model agent_reasoning_effort =
      then_do (lift (changes_checks notes reviewer assignee)) (λ _.
        then_do (lift (resolve_session checkout.session session)) (λ resolved.
          api.request_changes issue_id (record {
            notes = notes;
            reviewer = stripped reviewer;
            assignee = assignee;
            worker = worker_key config;
            session = resolved;
            agent_model = agent_model;
            agent_reasoning_effort = agent_reasoning_effort;
          })))

-- `issue.id or 0`
abbrev pub id_of : Issue → ℕ
id_of issue = elim issue.id [ none ↦ 0 | some n ↦ n ]

-- `{issue.id or 0: issue for issue in issues}.values()`: an old key keeps its place.
unfoldable pub put_issue : Issue → List Issue → List Issue
put_issue issue [] = issue ∷ []
put_issue issue (other ∷ others) =
    if eqb (id_of other) (id_of issue) then issue ∷ others else other ∷ put_issue issue others

unfoldable pub by_id : List Issue → List Issue → List Issue
by_id acc [] = acc
by_id acc (issue ∷ issues) = by_id (put_issue issue acc) issues

-- `sorted` by id, where no two have the same
unfoldable pub insert_issue : Issue → List Issue → List Issue
insert_issue issue [] = issue ∷ []
insert_issue issue (other ∷ others) =
    if ltb (id_of other) (id_of issue)
    then other ∷ insert_issue issue others
    else issue ∷ other ∷ others

unfoldable pub sorted_issues : List Issue → List Issue
sorted_issues [] = []
sorted_issues (issue ∷ issues) = insert_issue issue (sorted_issues issues)

abbrev pub has_id : List ℕ → Option ℕ → Bool
has_id ids none = false
has_id ids (some n) = any (eqb n) ids

abbrev pub is_issue_id : List Issue → ℕ → Bool
is_issue_id issues n = any (λ (issue : Issue). has_id (n ∷ []) issue.id) issues

abbrev pub first_issue : List Issue → Option Issue
first_issue [] = none
first_issue (issue ∷ issues) = some issue

-- The first issue that is not excluded, and the exclusions that are left.
unfoldable pub pick_review : List Issue → Option (List ℕ) → Option Issue × Option (List ℕ)
pick_review issues none = (first_issue issues, none)
pick_review issues (some exclude_ids) =
    let left = select (is_issue_id issues) exclude_ids in
    (first_issue (select (λ (issue : Issue). not (has_id left issue.id)) issues), some left)

unfoldable pub with_open : List Issue → List Issue → List Issue
with_open issues open_issues =
    sorted_issues
      (by_id [] (issues ++ select (λ (issue : Issue). is_empty issue.assignee) open_issues))

module _ {S : Type 0} (api : IssueStore S) (config : IssuekitConfig) where
  unfoldable pub review_candidates : Option String → Bool → Effect S (List Issue)
  review_candidates none include_open = api.find_for none (some "review")
  review_candidates (some reviewer) include_open =
      then_do (lift (resolve_reviewer (some reviewer) config none)) (λ resolved.
        then_do (api.find_for (some resolved) (some "review")) (λ issues.
          if include_open
          then then_do (api.find_for none (some "review"))
              (λ open_issues. return (with_open issues open_issues))
          else return issues))

  unfoldable pub next_review :
      Option String → Bool → Option (List ℕ) → Effect S (Option Issue × Option (List ℕ))
  next_review reviewer include_open exclude_ids =
      then_do (review_candidates reviewer include_open)
        (λ issues. return (pick_review issues exclude_ids))

  -- A blank assignee or stage asks for all.
  abbrev unless_blank : (String → Result (Unit {0})) → Option String → Result (Unit {0})
  unless_blank check none = ok tt
  unless_blank check (some value) = if is_empty value then ok tt else check value

  unfoldable pub find_for : Option String → Option String → Effect S (List Issue)
  find_for assignee stage =
      then_do
        (lift (
          unless_blank (λ value. validate_assignee value config) assignee >>= λ _.
          unless_blank (λ value. validate_stage value config) stage))
        (λ _. api.find_for assignee stage)
