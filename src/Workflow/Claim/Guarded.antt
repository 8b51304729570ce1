-- ===== src/Workflow/Claim/Guarded.antt =====
-- About claims in workflow.py: what holds of those that are granted, and a refusal.
use issuekit.Prelude.{
  String, List, false, ◌⊎◌, inr, any, is_empty, ◌≡◌, err, ℕ, ◌≢◌, refl, true, not, ◌&&◌, Option,
  none, some, is_some, ok, workflow,
}
use issuekit.Config.{has, qualified_worker_key, IssuekitConfig}
use issuekit.Guards.Author.{
  AuthorGuard, read_author_guards, blocks, AuthorOrchestrationContext, LocalConfig, LocalFile,
  GuardedItem, create_author_guard, enforce_author_handoff,
}
use issuekit.Guards.ClaimSync.{SyncState}
use issuekit.Guards.ClaimSync.Passed.{IsPassed}
use issuekit.Workflow.Transitions.{
  resolve_session, ensure_orchestration_session, is_same_worker_changes_continuation, Issue,
  IssueStore, World, Checkout, Overrides, validate_stage,
}
use issuekit.Workflow.Claim.{local_guards, claim_issue_checks, claim_issue}
use issuekit.Prelude.Text.{strip}
use issuekit.Workflow.{validate_assignee}
use issuekit.Guards.Author.Blocks.{create_author_guard-blocks}

-- Why the author guard lets a claim through.
pub data IsFree (config : IssuekitConfig) (checkout : Checkout) (issue_id : ℕ)
    (overrides : Overrides) (orchestration : Option AuthorOrchestrationContext) : Type 0 where
  overridden :
      overrides.allow_author_guard ≡ true → IsFree config checkout issue_id overrides orchestration
  relaxed :
      enforce_author_handoff checkout.handoff ≡ false
      → IsFree config checkout issue_id overrides orchestration
  unblocked :
      (guards : List AuthorGuard)
      → read_author_guards checkout.local_file ≡ ok guards
      → any (blocks config (some issue_id) orchestration) guards ≡ false
      → IsFree config checkout issue_id overrides orchestration

-- Why the branch guard does.
pub data IsOnBranch (config : IssuekitConfig) (checkout : Checkout) (overrides : Overrides)
    : Type 0 where
  any_branch : overrides.allow_any_branch ≡ true → IsOnBranch config checkout overrides
  unconfigured : is_empty config.work_branch ≡ true → IsOnBranch config checkout overrides
  work_branch :
      checkout.git.git_current_branch ≡ some config.work_branch
      → IsOnBranch config checkout overrides

module _ {S : Type 0} (api : IssueStore S) (config : IssuekitConfig) (checkout : Checkout) where
  -- Why the checkout is up to date, and the record of fetches that is left.
  abbrev pub IsSynced : Option Issue → Overrides → SyncState → SyncState → Type 0
  IsSynced previous overrides s s' =
      ((is_same_worker_changes_continuation previous config ≡ true) × (s' ≡ s))
      ⊎ IsPassed checkout.git config checkout.path checkout.now checkout.after overrides.no_sync s
          s'

  -- What holds of a claim that was granted.
  pub record IsGuarded (issue_id : ℕ) (assignee : String) (overrides : Overrides)
      (session : Option String) (orchestration : Option AuthorOrchestrationContext) (w w' : World S)
      (issue : Issue) : Type 0 where
    pub previous : Option Issue
    pub resolved : Option String
    pub read : S
    pub known : has assignee config.assignees ≡ true
    pub staged : has "implementing" config.stages ≡ true
    pub free : IsFree config checkout issue_id overrides orchestration
    pub branch : IsOnBranch config checkout overrides
    pub found : api.get_issue issue_id w.store ≡ (ok previous, read)
    pub synced : IsSynced previous overrides w.sync w'.sync
    pub identified : resolve_session checkout.session session ≡ ok resolved
    pub orchestrated : ensure_orchestration_session orchestration resolved ≡ ok tt
    pub granted :
        api.claim_issue issue_id
          (record {
            assignee = assignee;
            worker = qualified_worker_key config;
            allow_self_implement =
                not (enforce_author_handoff checkout.handoff) && not (is_some orchestration);
            session = resolved;
          })
          read
        ≡ (ok issue, w'.store)

-- A checkout that has just recorded the issue it authored cannot claim that issue: the claim is refused
-- and nothing is asked of the store, for known assignees and stages, where handoffs are enforced
-- and neither overridden nor orchestrated.
pub claim_issue-authored :
    {S : Type 0} (api : IssueStore S) (config : IssuekitConfig) (checkout : Checkout) (now : String)
    (item : GuardedItem) (issue_id : ℕ) (local_config : LocalConfig) (assignee : String)
    (overrides : Overrides) (session : Option String) (w : World S)
    → checkout.local_file ≡ (create_author_guard config now item (LocalFile.present local_config)).1
    → enforce_author_handoff checkout.handoff ≡ true
    → strip config.project ≡ config.project
    → config.project ≢ ""
    → item.kind ≡ "issue"
    → item.item_id ≡ some issue_id
    → overrides.allow_author_guard ≡ false
    → validate_assignee assignee config ≡ ok tt
    → validate_stage "implementing" config ≡ ok tt
    → claim_issue api config checkout issue_id assignee overrides session none w
      ≡ (err (workflow "author_session_guard"), w)
unfolding claim_issue claim_issue_checks local_guards
claim_issue-authored api config checkout now item issue_id local_config assignee overrides session w
      file enforced clean named kind id guarded known stage =
    let blocked =
      create_author_guard-blocks checkout.handoff config now item issue_id local_config
        (some issue_id) enforced clean named kind id (inr refl) in
    rw (known, stage, file, guarded, blocked) refl
