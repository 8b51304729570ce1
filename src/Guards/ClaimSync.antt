-- ===== src/Guards/ClaimSync.antt =====
-- guards/claim_sync.py: the checkout is clean and follows the remote before an issue is claimed.
-- Git and the clock are parameters; times are in milliseconds.
pub mod Synced
pub mod Passed
use issuekit.Prelude.{
  ℕ, ◌+◌, ◌-◌, String, Bool, true, false, not, ◌&&◌, ◌||◌, Option, none, some, List, [], ◌∷◌, ◌++◌,
  if◌then◌else◌, ◌==◌, is_empty, ltb, eqb, Result, ok, err, workflow,
}
use issuekit.Config.{IssuekitConfig}

pub record FetchKey : Type 0 where
  pub checkout : String
  pub remote : String
  pub branch : String

-- The Git commands that change the checkout: `fetch remote branch` and `merge --ff-only remote/branch`.
pub data GitCommand : Type 0 where
  fetch merge : String → String → GitCommand

-- What Git answers. The return code of a command may depend on those run before it, and is none when the
-- command could not be run.
pub record Git : Type 0 where
  pub git_status_short : Option String
  pub git_current_branch : Option String
  pub git_origin_url : Option String
  pub run_git : List GitCommand → GitCommand → Option ℕ

-- `_last_successful_fetch`, and the commands run so far, the latest first.
pub record SyncState : Type 0 where
  pub last_successful_fetch : List (FetchKey × ℕ)
  pub commands : List GitCommand

abbrev pub same_key : FetchKey → FetchKey → Bool
same_key a b = a.checkout == b.checkout && a.remote == b.remote && a.branch == b.branch

unfoldable pub last_fetch : FetchKey → List (FetchKey × ℕ) → Option ℕ
last_fetch key [] = none
last_fetch key ((k, time) ∷ entries) = if same_key k key then some time else last_fetch key entries

unfoldable pub succeeded : Option ℕ → Bool
succeeded none = false
succeeded (some returncode) = eqb returncode 0

-- `previous is not None and now - previous < interval`
unfoldable pub is_recent : ℕ → ℕ → Option ℕ → Bool
is_recent interval now none = false
is_recent interval now (some previous) = ltb now (previous + interval)

abbrev pub sync_error : Result (Unit {0})
sync_error = err (workflow "claim_sync_guard")

abbrev pub fetch_key : IssuekitConfig → String → FetchKey
fetch_key config checkout = record {
  checkout = checkout;
  remote = "origin";
  branch = config.work_branch;
}

abbrev pub fetch_command : IssuekitConfig → GitCommand
fetch_command config = GitCommand.fetch "origin" config.work_branch

abbrev pub merge_command : IssuekitConfig → GitCommand
merge_command config = GitCommand.merge "origin" config.work_branch

module _ (git : Git) (config : IssuekitConfig) (checkout : String) (now after : ℕ) where
  -- The merge, once the fetch is done; `after` is the time when both are.
  unfoldable pub run_merge : SyncState → Result (Unit {0}) × SyncState
  run_merge s =
      let s' = record s { commands = merge_command config ∷ s.commands } in
      if succeeded (git.run_git s.commands (merge_command config))
      then (
        ok tt,
        record s' {
          last_successful_fetch = (fetch_key config checkout, after) ∷ s.last_successful_fetch;
        },
      )
      else (sync_error, s')

  unfoldable pub run_fetch : SyncState → Result (Unit {0}) × SyncState
  run_fetch s =
      let s' = record s { commands = fetch_command config ∷ s.commands } in
      if succeeded (git.run_git s.commands (fetch_command config))
      then run_merge s'
      else (sync_error, s')

  -- A checkout that has the branch and a remote is synchronised, unless it was just now.
  unfoldable pub sync_branch : SyncState → Result (Unit {0}) × SyncState
  sync_branch s =
      if is_recent config.claim_sync_interval now
        (last_fetch (fetch_key config checkout) s.last_successful_fetch)
      then (ok tt, s)
      else run_fetch s

  -- The checkout's remote, if it has one.
  unfoldable pub sync_remote : Option String → SyncState → Result (Unit {0}) × SyncState
  sync_remote none s = (ok tt, s)
  sync_remote (some url) s = sync_branch s

  -- The checkout's branch, if it has one.
  unfoldable pub sync_checkout : Option String → SyncState → Result (Unit {0}) × SyncState
  sync_checkout none s = (ok tt, s)
  sync_checkout (some branch) s =
      if not (branch == config.work_branch) then (ok tt, s) else sync_remote git.git_origin_url s

  -- The checkout's status, if `git status` ran.
  unfoldable pub sync_status : Option String → SyncState → Result (Unit {0}) × SyncState
  sync_status none s = (sync_error, s)
  sync_status (some status) s =
      if not (is_empty status) then (sync_error, s) else sync_checkout git.git_current_branch s

  unfoldable pub enforce_claim_sync : Bool → SyncState → Result (Unit {0}) × SyncState
  enforce_claim_sync no_sync s =
      if no_sync || not config.claim_sync || is_empty config.work_branch
      then (ok tt, s)
      else sync_status git.git_status_short s
