-- ===== src/Workflow/Tests.antt =====
-- Reviewers and implementers, for two configured agents.
use issuekit.Prelude.{ℕ, ◌≡◌, refl, true, false, none, some, List, [], ◌∷◌, ok, err, workflow}
use issuekit.Prelude.Text.{strip, has_non_ascii}
use issuekit.Core.Token.{is_valid_workflow_token, token_matches}
use issuekit.Core.WorkerKey
use issuekit.Config.{IssuekitConfig, has, worker_key}
use issuekit.Guards.Tests as Guards
use issuekit.Guards.Author.{LocalFile, create_author_guard, enforce_author_handoff}
use issuekit.Guards.ClaimSync.{fetch_key, fetch_command, merge_command}
use issuekit.Issues.Orphans
use issuekit.Issues.Orphans.{detect_stale_claims}
use issuekit.Workflow.{
  validate_assignee, first_other, resolve_auto_reviewer, resolve_reviewer, resolve_implementer,
  require_implementer,
}
use issuekit.Workflow.Transitions.{
  Issue, IssueStore, World, Checkout, Overrides, validate_stage, require_ascii, reclaim_actor,
}
use issuekit.Workflow.Claim.{claim_issue}
use issuekit.Workflow.Claim.Guarded.{claim_issue-authored}
use issuekit.Workflow.Recover.{
  ReclaimResult, Listings, reclaim_issue, reclaim_checks, reclaim_previous, reclaimed,
  recovered_claim, list_stale_claims, find_claim, expected_holder,
}
use issuekit.Workflow.Recover.Flagged.{IsFlagged, reclaim_issue-IsFlagged}

abbrev config : IssuekitConfig
config = record {
  project = "issuekit";
  assignees = "codex" ∷ "claude" ∷ [];
  stages = "planned" ∷ "todo" ∷ "implementing" ∷ "review" ∷ "changes_requested" ∷ "done" ∷ [];
  default_implementer = " codex";
  work_branch = "main";
  claim_sync = true;
  claim_sync_interval = 60000;
  worker = some (record { machine_id = "laptop"; repo_id = "issuekit"; worker_id = "codex" });
}

claude-resolved : resolve_reviewer none config (some "codex") ≡ ok "claude"
unfolding resolve_reviewer resolve_auto_reviewer first_other
claude-resolved = refl

codex-required : require_implementer none config ≡ ok "codex"
unfolding require_implementer resolve_implementer validate_assignee strip is_valid_workflow_token
    token_matches has
codex-required = refl

-- A store that answers every call with issue 3, and logs the ids it was asked for.
abbrev issue_3 : Issue
issue_3 = record {
  id = some 3;
  ref = "issuekit#3";
  assignee = "";
  worker = "codex.issuekit";
  stage = "implementing";
  target_worker = "";
  implementation_worker = none;
}

abbrev api : IssueStore (List ℕ)
api = record {
  get_issue = λ n s. (ok (some issue_3), n ∷ s);
  claim_next = λ priority arguments s. (ok (some issue_3), s);
  claim_issue = λ n arguments s. (ok issue_3, n ∷ s);
  reclaim_issue = λ n expected actor reason s. (ok issue_3, n ∷ s);
  readdress_issue = λ n expected actor reason s. (ok issue_3, n ∷ s);
  submit_for_review = λ n arguments s. (ok issue_3, n ∷ s);
  request_changes = λ n arguments s. (ok issue_3, n ∷ s);
  find_for = λ assignee stage s. (ok (issue_3 ∷ []), s);
}

abbrev checkout : Checkout
checkout = record {
  handoff = none;
  session = some "session-1";
  local_file = LocalFile.absent;
  git = Guards.git;
  path = "/work";
  now = 5;
  after = 9;
}

abbrev no_overrides : Overrides
no_overrides = record { allow_author_guard = false; allow_any_branch = false; no_sync = false }

abbrev world : World (List ℕ)
world = record { store = []; sync = Guards.never_fetched }

abbrev claimed_world : World (List ℕ)
claimed_world = record {
  store = 3 ∷ 3 ∷ [];
  sync = record {
    last_successful_fetch = (fetch_key Guards.config "/work", 9) ∷ [];
    commands = merge_command Guards.config ∷ fetch_command Guards.config ∷ [];
  };
}

abbrev authored : Checkout
authored = record checkout {
  local_file =
      (create_author_guard Guards.config "2026-01-02" Guards.item
        (LocalFile.present Guards.local_config)).1;
}

claim_issue-authored_example :
    claim_issue api Guards.config authored 7 "claude" no_overrides none none world
    ≡ (err (workflow "author_session_guard"), world)
unfolding enforce_author_handoff strip validate_assignee validate_stage is_valid_workflow_token
    token_matches has
claim_issue-authored_example =
    claim_issue-authored api Guards.config authored "2026-01-02" Guards.item 7 Guards.local_config
      "claude" no_overrides none world refl refl refl Guards.project-named refl refl refl refl refl

abbrev issue_2 : Issue
issue_2 = record issue_3 { id = some 2 }

-- The worker of issue 3 is not registered any more.
abbrev listings : Listings
listings = record {
  workers = ok [];
  issues = ok (
      record {
        id = some 3;
        ref = "issuekit#3";
        title = "";
        assignee = "codex";
        stage = "implementing";
        worker = "codex.issuekit";
        target_worker = "";
      }
      ∷ []);
  fromisoformat = λ text. none;
  now = 1000;
}

abbrev recovered : ReclaimResult
recovered = record {
  previous = issue_3;
  issue = issue_3;
  reason = some "no_worker";
  expected_worker = some "codex.issuekit";
  actor = "codex.issuekit";
  audit_reason = none;
}

claim-recovered :
    reclaim_issue api Guards.config listings 3 false none none [] ≡ (ok recovered, 3 ∷ 3 ∷ [])
unfolding reclaim_issue reclaim_checks reclaim_previous reclaimed recovered_claim list_stale_claims
    find_claim expected_holder validate_stage require_ascii has_non_ascii is_valid_workflow_token
    token_matches has detect_stale_claims Orphans.wanted_of Orphans.append_stale_worker
    Orphans.matches_of Orphans.found_rows reclaim_actor worker_key WorkerKey.worker_key
claim-recovered = refl

reclaim_issue-IsFlagged_example :
    IsFlagged api Guards.config listings 3 none none [] (3 ∷ 3 ∷ []) recovered
reclaim_issue-IsFlagged_example =
    reclaim_issue-IsFlagged api Guards.config listings 3 none none [] claim-recovered
