-- ===== src/Workflow.antt =====
-- workflow.py: who reviews and who implements an issue.
pub mod Resolved
pub mod Transitions
pub mod Claim
pub mod Recover
pub mod Review
mod Tests
use issuekit.Prelude.{
  String, Bool, true, false, not, ◌||◌, Option, none, some, List, [], ◌∷◌, if◌then◌else◌, is_empty,
  ◌==◌, Result, ok, err, Error, workflow, plain_workflow, guard, ◌>>=◌, ◌>>◌, or_empty,
}
use issuekit.Prelude.Text.{strip}
use issuekit.Core.Token.{is_valid_workflow_token}
use issuekit.Config.{IssuekitConfig, has}

unfoldable pub validate_assignee : String → IssuekitConfig → Result (Unit {0})
validate_assignee value config = do
  guard (is_valid_workflow_token value) plain_workflow
  guard (has value config.assignees) plain_workflow

-- The loop of `_resolve_auto_reviewer` over the assignees.
unfoldable pub first_other : String → List String → Result String
first_other implementer [] = err (workflow "distinct_reviewer_guard")
first_other implementer (assignee ∷ assignees) =
    let rest = first_other implementer assignees in
    if not (assignee == implementer) then ok assignee else rest

-- The implementer of the issue, if there is an issue.
unfoldable pub resolve_auto_reviewer : IssuekitConfig → Option String → Result String
resolve_auto_reviewer config implementer = first_other (or_empty implementer) config.assignees

unfoldable pub resolve_reviewer : Option String → IssuekitConfig → Option String → Result String
resolve_reviewer none config implementer = resolve_auto_reviewer config implementer
resolve_reviewer (some reviewer) config implementer = do
  validate_assignee (strip reviewer) config
  ok (strip reviewer)

-- The only assignee, if there is exactly one.
abbrev only : List String → Option String
only (assignee ∷ []) = some assignee
only _ = none

unfoldable pub resolve_implementer : Option String → IssuekitConfig → Result (Option String)
resolve_implementer implementer config =
    let named = or_empty implementer in
    let resolved = strip (if is_empty named then config.default_implementer else named) in
    if is_empty resolved
    then ok (only config.assignees)
    else (validate_assignee resolved config >>= λ _. ok (some resolved))

abbrev given : Option String → Result String
given none = err plain_workflow
given (some value) = ok value

unfoldable pub require_implementer : Option String → IssuekitConfig → Result String
require_implementer value config = resolve_implementer value config >>= given

-- `assignee` is the one of the issue.
unfoldable pub ensure_assigned_reviewer : String → String → Result (Unit {0})
ensure_assigned_reviewer assignee resolved_reviewer =
    guard (is_empty assignee || assignee == resolved_reviewer) plain_workflow
