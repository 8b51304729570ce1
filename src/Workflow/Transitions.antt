-- ===== src/Workflow/Transitions.antt =====
-- workflow.py: the transitions of an issue, each after its guards. The store is an interface over a
-- state of its own; what a call reads of its surroundings is the record `Checkout`.
use issuekit.Prelude.{
  ℕ, String, Bool, true, false, not, ◌&&◌, ◌||◌, Option, none, some, List, if◌then◌else◌, ◌==◌,
  is_empty, or_empty, Result, ok, err, workflow, plain_workflow, value_error, guard, ◌>>=◌, ◌>>◌,
}
use issuekit.Prelude.Text.{strip, has_non_ascii}
use issuekit.Prelude.Effects.{Effect}
use issuekit.Core.Token.{is_valid_workflow_token, is_valid_session_token}
use issuekit.Core.WorkerKey.{worker_keys_match, strip_or_empty}
use issuekit.Config.{IssuekitConfig, has, worker_key, qualified_worker_key}
use issuekit.Guards.Author.{LocalFile, AuthorOrchestrationContext}
use issuekit.Guards.ClaimSync.{Git, SyncState}

-- What the transitions read of an issue.
pub record Issue : Type 0 where
  pub id : Option ℕ
  pub ref : String
  pub assignee : String
  pub worker : String
  pub stage : String
  pub target_worker : String
  pub implementation_worker : Option String

pub record ClaimArguments : Type 0 where
  pub assignee : String
  pub worker : Option String
  pub allow_self_implement : Bool
  pub session : Option String

pub record ReviewArguments : Type 0 where
  pub summary : String
  pub branch : Option String
  pub commit : Option String
  pub reviewer : Option String
  pub session : Option String
  pub agent_model : Option String
  pub agent_reasoning_effort : Option String

pub record ChangesArguments : Type 0 where
  pub notes : String
  pub reviewer : Option String
  pub assignee : Option String
  pub worker : Option String
  pub session : Option String
  pub agent_model : Option String
  pub agent_reasoning_effort : Option String

-- The operations of a store that the transitions call, over the store's state.
pub record IssueStore (S : Type 0) : Type 0 where
  pub get_issue : ℕ → Effect S (Option Issue)
  pub claim_next : Option String → ClaimArguments → Effect S (Option Issue)
  pub claim_issue : ℕ → ClaimArguments → Effect S Issue
  pub reclaim_issue : ℕ → Option String → String → Option String → Effect S Issue
  pub readdress_issue : ℕ → String → String → Option String → Effect S Issue
  pub submit_for_review : ℕ → ReviewArguments → Effect S Issue
  pub request_changes : ℕ → ChangesArguments → Effect S Issue
  pub find_for : Option String → Option String → Effect S (List Issue)

-- The state of the store, and of the record of fetches.
pub record World (S : Type 0) : Type 0 where
  pub store : S
  pub sync : SyncState

-- The environment's two variables, the local file, Git, and the clock before and after a fetch.
pub record Checkout : Type 0 where
  pub handoff : Option String
  pub session : Option String
  pub local_file : LocalFile
  pub git : Git
  pub path : String
  pub now : ℕ
  pub after : ℕ

pub record Overrides : Type 0 where
  pub allow_author_guard : Bool
  pub allow_any_branch : Bool
  pub no_sync : Bool

unfoldable pub validate_stage : String → IssuekitConfig → Result (Unit {0})
validate_stage value config = do
  guard (is_valid_workflow_token value) plain_workflow
  guard (has value config.stages) plain_workflow

unfoldable pub validate_queue_stage : Option String → IssuekitConfig → Result (Unit {0})
validate_queue_stage none config = ok tt
validate_queue_stage (some stage) config =
    if is_empty stage
    then ok tt
    else (guard (not (stage == "done")) plain_workflow >>= λ _.
        guard (has stage config.stages) plain_workflow)

unfoldable pub require_ascii : Option String → Result (Unit {0})
require_ascii text = guard (not (has_non_ascii (or_empty text))) plain_workflow

-- session.py
unfoldable pub validate_session_token : String → Result String
unfolding strip is_valid_session_token
validate_session_token value = do
  guard (not (is_empty (strip value))) value_error
  guard (is_valid_session_token (strip value)) value_error
  ok (strip value)

unfoldable pub current_session_token : Option String → Result (Option String)
unfolding validate_session_token
current_session_token none = ok none
current_session_token (some raw) =
    if is_empty (strip raw)
    then ok none
    else (validate_session_token raw >>= λ token. ok (some token))

abbrev pub invalid_session {ℓ} : {A : Type ℓ} → Result A → Result A
invalid_session (ok a) = ok a
invalid_session (err e) = err (workflow "invalid_session")

-- The explicit session, or else the one of the environment.
unfoldable pub resolve_session : Option String → Option String → Result (Option String)
unfolding validate_session_token current_session_token
resolve_session environ none = invalid_session (current_session_token environ)
resolve_session environ (some explicit) =
    invalid_session (validate_session_token explicit >>= λ token. ok (some token))

abbrev option_is : Option String → String → Bool
option_is none text = false
option_is (some s) text = s == text

unfoldable pub ensure_orchestration_session :
    Option AuthorOrchestrationContext → Option String → Result (Unit {0})
ensure_orchestration_session none session = ok tt
ensure_orchestration_session (some orchestration) session =
    guard (option_is session orchestration.run_session) (workflow "invalid_session")

unfoldable pub is_same_worker_changes_continuation : Option Issue → IssuekitConfig → Bool
is_same_worker_changes_continuation none config = false
is_same_worker_changes_continuation (some issue) config =
    let current = or_empty (qualified_worker_key config) in
    let implementation =
      if is_empty issue.worker then strip_or_empty issue.implementation_worker else issue.worker in
    issue.stage == "changes_requested"
    && not (is_empty current)
    && not (is_empty implementation)
    && worker_keys_match false implementation current

unfoldable pub reclaim_actor : IssuekitConfig → String
reclaim_actor config =
    let key = or_empty (worker_key config) in if is_empty key then "issuekit" else key

abbrev pub is_valid_priority : Option String → Bool
is_valid_priority none = true
is_valid_priority (some p) = p == "high" || p == "medium" || p == "low"
