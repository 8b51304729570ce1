-- ===== src/Workflow/Resolved.antt =====
-- The names that are chosen are configured ones, and a chosen reviewer is not the implementer.
use issuekit.Prelude.{
  String, ◌≡◌, true, false, not, ◌||◌, Option, none, some, List, [], ◌∷◌, is_some, ◌==◌, eq_iff,
  eq_refl, ok, arith, or_empty,
}
use issuekit.Config.{IssuekitConfig, has}
use issuekit.Workflow.{
  validate_assignee, first_other, resolve_auto_reviewer, resolve_reviewer, resolve_implementer,
  require_implementer,
}

first_other-has :
    (implementer : String) (assignees : List String) {r : String}
    → first_other implementer assignees ≡ ok r
    → (has r assignees ≡ true) × ((r == implementer) ≡ false)
unfolding first_other has
first_other-has implementer [] h = cc
first_other-has implementer (a ∷ assignees) {r} h = ground (
  arith,
  first_other-has implementer assignees {r = r},
  eq_iff a r,
  eq_iff a implementer,
  eq_iff r implementer,
)

-- A reviewer that is resolved is one of the configured assignees, and when none was asked for, another
-- than the implementer of the issue.
pub resolve_reviewer-ok :
    (reviewer : Option String) (config : IssuekitConfig) (implementer : Option String) {r : String}
    → resolve_reviewer reviewer config implementer ≡ ok r
    → (has r config.assignees ≡ true)
      × ((is_some reviewer || not (r == or_empty implementer)) ≡ true)
unfolding resolve_reviewer resolve_auto_reviewer validate_assignee
resolve_reviewer-ok none config implementer {r} h =
    let (named, other) = first_other-has (or_empty implementer) config.assignees h in
    (named, ground arith)
resolve_reviewer-ok (some reviewer) config implementer {r} h = (ground arith, ground arith)

-- An implementer that is required and found is one of the configured assignees.
pub require_implementer-ok :
    (value : Option String) (config : IssuekitConfig) {r : String}
    → require_implementer value config ≡ ok r
    → has r config.assignees ≡ true
unfolding require_implementer resolve_implementer validate_assignee has
require_implementer-ok value config {r} h = ground (arith, eq_refl r)
