-- ===== src/Guards/Tests.antt =====
-- A checkout that authored issue 7, and one that follows its remote.
use issuekit.Prelude.{
  ◌≡◌, ◌≢◌, refl, true, false, none, some, [], ◌∷◌, err, workflow, inr, eq_iff, arith,
}
use issuekit.Prelude.Text.{strip}
use issuekit.Config.{IssuekitConfig}
use issuekit.Guards.Author.{
  LocalConfig, LocalFile, AuthorGuard, GuardedItem, create_author_guard, enforce_author_handoff,
  enforce_no_author_guard, new_guard,
}
use issuekit.Guards.Author.Blocks.{create_author_guard-blocks}
use issuekit.Guards.ClaimSync.{Git, SyncState, enforce_claim_sync}
use issuekit.Guards.ClaimSync.Synced.{Ends, enforce_claim_sync-Ends}

abbrev pub config : IssuekitConfig
config = record {
  project = "issuekit";
  assignees = "codex" ∷ "claude" ∷ [];
  stages = "todo" ∷ "implementing" ∷ "review" ∷ "done" ∷ [];
  default_implementer = "";
  work_branch = "main";
  claim_sync = true;
  claim_sync_interval = 60000;
  worker = some (record { machine_id = "laptop"; repo_id = "issuekit"; worker_id = "codex" });
}

abbrev pub item : GuardedItem
item = record {
  kind = "issue";
  item_id = some 7;
  ref = "issuekit#7";
  author_agent = some "codex";
  author_session = none;
  target_project = none;
}

abbrev pub local_config : LocalConfig
local_config = record {
  worker = none;
  disabled_agents = none;
  refs = [];
  author_guards = (("kind", "issue") ∷ ("ref", "issuekit#3") ∷ []) ∷ [];
}

abbrev pub project-named : config.project ≢ ""
project-named = λ p. ground (arith, eq_iff "issuekit" "")

create_author_guard-blocks_example :
    enforce_no_author_guard none
      (create_author_guard config "2026-01-02" item (LocalFile.present local_config)).1
      config
      (some 7)
      false
      none
    ≡ err (workflow "author_session_guard")
unfolding enforce_author_handoff strip
create_author_guard-blocks_example =
    create_author_guard-blocks none config "2026-01-02" item 7 local_config (some 7) refl refl
      project-named refl refl (inr refl)

abbrev guard_of_item : AuthorGuard
guard_of_item = new_guard config "2026-01-02" item

-- Every command succeeds in a clean checkout of `main`.
abbrev pub git : Git
git = record {
  git_status_short = some "";
  git_current_branch = some "main";
  git_origin_url = some "git@host";
  run_git = λ before command. some 0;
}

abbrev pub never_fetched : SyncState
never_fetched = record { last_successful_fetch = []; commands = [] }

enforce_claim_sync-Ends_example :
    Ends git config "/work" 5 9 never_fetched
      (enforce_claim_sync git config "/work" 5 9 false never_fetched)
enforce_claim_sync-Ends_example = enforce_claim_sync-Ends git config "/work" 5 9 false never_fetched
