-- ===== src/Workflow/Claim.antt =====
-- workflow.py: claiming an issue.
pub mod Guarded
use issuekit.Prelude.{
  ℕ, String, Bool, true, false, not, ◌&&◌, Option, none, some, is_some, if◌then◌else◌, Result, ok,
  err, workflow, plain_workflow, guard, ◌>>=◌, ◌>>◌,
}
use issuekit.Prelude.Effects.{Effect, return, fail, lift, then_do}
use issuekit.Config.{IssuekitConfig, qualified_worker_key}
use issuekit.Workflow.{validate_assignee}
use issuekit.Guards.Author.{
  AuthorOrchestrationContext, enforce_no_author_guard, enforce_author_handoff,
}
use issuekit.Guards.Branch.{enforce_work_branch}
use issuekit.Guards.ClaimSync.{enforce_claim_sync}
use issuekit.Workflow.Transitions.{
  Issue, ClaimArguments, IssueStore, World, Checkout, Overrides, validate_stage, resolve_session,
  ensure_orchestration_session, is_same_worker_changes_continuation, is_valid_priority,
}

-- A call of the store.
abbrev pub on_store : {S A : Type 0} → Effect S A → Effect (World S) A
on_store m w = let (r, s) = m w.store in (r, record w { store = s })

module _ (config : IssuekitConfig) (checkout : Checkout) where
  -- The guards that only read: of the author's session, and of the branch.
  unfoldable pub local_guards :
      Option ℕ → Overrides → Option AuthorOrchestrationContext → Result (Unit {0})
  local_guards issue_id overrides orchestration = do
    enforce_no_author_guard checkout.handoff checkout.local_file config issue_id
        overrides.allow_author_guard orchestration
    enforce_work_branch checkout.git.git_current_branch config overrides.allow_any_branch

  abbrev pub claim_arguments : String → Bool → Option String → ClaimArguments
  claim_arguments assignee allow_self_implement session = record {
    assignee = assignee;
    worker = qualified_worker_key config;
    allow_self_implement = allow_self_implement;
    session = session;
  }

  unfoldable pub claim_next_checks : String → Option String → Overrides → Result (Unit {0})
  claim_next_checks assignee priority overrides = do
    validate_assignee assignee config
    validate_stage "implementing" config
    guard (is_valid_priority priority) plain_workflow
    local_guards none overrides none

  unfoldable pub claim_issue_checks :
      ℕ → String → Overrides → Option AuthorOrchestrationContext → Result (Unit {0})
  claim_issue_checks issue_id assignee overrides orchestration = do
    validate_assignee assignee config
    validate_stage "implementing" config
    local_guards (some issue_id) overrides orchestration

  unfoldable pub claim_session :
      Option String → Option AuthorOrchestrationContext → Result (Option String)
  claim_session session orchestration = resolve_session checkout.session session >>= λ resolved.
      ensure_orchestration_session orchestration resolved >>= λ _. ok resolved

  unfoldable pub sync_guard : {S : Type 0} → Bool → Effect (World S) (Unit {0})
  sync_guard no_sync w =
      let (r, sync) =
        enforce_claim_sync checkout.git config checkout.path checkout.now checkout.after no_sync
          w.sync in
      (r, record w { sync = sync })

  -- A worker that goes on with the changes asked of it need not synchronise.
  unfoldable pub sync_unless_continued :
      {S : Type 0} → Option Issue → Overrides → Effect (World S) (Unit {0})
  sync_unless_continued previous overrides w =
      if is_same_worker_changes_continuation previous config
      then (ok tt, w)
      else sync_guard overrides.no_sync w

module _ {S : Type 0} (api : IssueStore S) (config : IssuekitConfig) (checkout : Checkout) where
  unfoldable pub claim_next_call :
      String → Option String → Option String → Effect (World S) (Option Issue)
  claim_next_call assignee priority session =
      then_do (lift (resolve_session checkout.session session)) (λ resolved. on_store (
        api.claim_next priority (
          claim_arguments config checkout assignee (not (enforce_author_handoff checkout.handoff))
            resolved)))

  unfoldable pub claim_next :
      String → Option String → Overrides → Option String → Effect (World S) (Option Issue)
  claim_next assignee priority overrides session =
      then_do (lift (claim_next_checks config checkout assignee priority overrides)) (λ _.
        then_do (sync_guard config checkout overrides.no_sync)
          (λ _. claim_next_call assignee priority session))

  unfoldable pub claim_issue_call :
      ℕ → String → Option String → Option AuthorOrchestrationContext → Effect (World S) Issue
  claim_issue_call issue_id assignee session orchestration =
      then_do (lift (claim_session config checkout session orchestration)) (λ resolved. on_store (
        api.claim_issue issue_id (
          claim_arguments config checkout assignee
            (not (enforce_author_handoff checkout.handoff) && not (is_some orchestration))
            resolved)))

  unfoldable pub claim_issue :
      ℕ
      → String
      → Overrides
      → Option String
      → Option AuthorOrchestrationContext
      → Effect (World S) Issue
  claim_issue issue_id assignee overrides session orchestration =
      then_do (lift (claim_issue_checks config checkout issue_id assignee overrides orchestration))
        (λ _. then_do (on_store (api.get_issue issue_id)) (λ previous.
          then_do (sync_unless_continued config checkout previous overrides)
            (λ _. claim_issue_call issue_id assignee session orchestration)))
