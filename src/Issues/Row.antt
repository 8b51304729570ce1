-- ===== src/Issues/Row.antt =====
-- testing/issues.py: rows, what callers send, and the tests that the operations make of a row.
use issuekit.Prelude.{
  ℕ, String, Bool, true, false, not, ◌&&◌, ◌||◌, Option, none, some, if◌then◌else◌, ◌==◌, is_empty,
  or_empty,
}
use issuekit.Core.WorkerKey.{worker_keys_match}

pub record Issue : Type 0 where
  pub id : ℕ
  pub title : String
  pub status : String
  pub priority : String
  pub created : String
  pub completed : String
  pub assignee : String
  pub stage : String
  pub implementer : String
  pub author : String
  pub worker : String
  pub target_worker : String
  pub author_session : String
  pub implementer_session : String
  pub reviewer_session : String
  pub body : String
  pub branch : Option String
  pub commit : Option String
  pub dependency_state : Option String

-- The keys that a caller sends, and may leave out. Keys that no operation reads of a row are not there.
pub record Fields : Type 0 where
  pub id : Option ℕ
  pub session : Option String
  pub title : Option String
  pub status : Option String
  pub priority : Option String
  pub created : Option String
  pub completed : Option String
  pub assignee : Option String
  pub stage : Option String
  pub implementer : Option String
  pub author : Option String
  pub worker : Option String
  pub target_worker : Option String
  pub author_session : Option String
  pub implementer_session : Option String
  pub reviewer_session : Option String
  pub body : Option String
  pub branch : Option String
  pub commit : Option String
  pub dependency_state : Option String

-- `d.get(key, default)`
abbrev pub or_default : String → Option String → String
or_default d none = d
or_default d (some v) = v

-- `x or y`
abbrev pub or_text : String → String → String
or_text a b = if is_empty a then b else a

unfoldable pub is_claimable_status : String → Bool
is_claimable_status status = status == "active" || status == "in_progress"

unfoldable pub is_ready_stage : String → Bool
is_ready_stage stage = stage == "" || stage == "todo" || stage == "changes_requested"

-- `assignee in {"", name}`
unfoldable pub is_open_to : String → String → Bool
is_open_to assignee name = assignee == "" || assignee == name

unfoldable pub rank : String → ℕ
rank priority =
    if priority == "high"
    then 0
    else if priority == "medium"
    then 1
    else if priority == "low"
    then 2
    else 99

unfoldable pub is_blocked_state : Option String → Bool
is_blocked_state none = false
is_blocked_state (some state) = state == "waiting" || state == "attention"

unfoldable pub matches_target_worker : Issue → Option String → Bool
matches_target_worker issue worker =
    is_empty issue.target_worker || worker_keys_match true issue.target_worker (or_empty worker)

unfoldable pub is_self_review : Issue → String → Option String → Bool
is_self_review issue reviewer reviewer_worker =
    if not (issue.implementer == reviewer)
    then false
    else if not (is_empty issue.worker) && not (is_empty (or_empty reviewer_worker))
    then worker_keys_match false issue.worker (or_empty reviewer_worker)
    else true

-- The condition under which `_claim_issue` refuses the author of an issue.
unfoldable pub is_forbidden_self_implement : Issue → String → Bool → Option String → Bool
is_forbidden_self_implement issue assignee allow_self_implement session =
    let has_author_session = not (is_empty issue.author_session) in
    let is_changes_continuation =
      issue.implementer == assignee && issue.stage == "changes_requested" in
    let has_conflicting_author_session =
      has_author_session
      && (is_empty (or_empty session) || issue.author_session == or_empty session) in
    let is_assigned_without_author_session = not has_author_session && issue.assignee == assignee in
    not allow_self_implement
    && issue.author == assignee
    && not is_changes_continuation
    && (has_conflicting_author_session || is_assigned_without_author_session)

-- `_dependency_warning`: whether the response of a claim carries a warning.
pub has_dependency_warning : Issue → Bool
has_dependency_warning issue = is_blocked_state issue.dependency_state
