-- ===== src/Guards/ClaimSync/Synced.antt =====
-- What a synchronisation does to the record of fetches, and when none is run.
use issuekit.Prelude.{
  ℕ, ◌+◌, ◌<◌, String, ◌≡◌, refl, Bool, true, false, not, ◌||◌, Option, none, some, List, ◌∷◌, ◌==◌,
  is_empty, Result, ok, arith, eq_refl, Bool-cases, inl, inr,
}
use issuekit.Config.{IssuekitConfig}
use issuekit.Guards.ClaimSync.{
  FetchKey, GitCommand, Git, SyncState, last_fetch, succeeded, is_recent, sync_error, fetch_key,
  fetch_command, merge_command, run_merge, run_fetch, sync_branch, sync_remote, sync_checkout,
  sync_status, enforce_claim_sync,
}

module _ (git : Git) (config : IssuekitConfig) (checkout : String) (now after : ℕ) where
  abbrev fetched : SyncState → List GitCommand
  fetched s = fetch_command config ∷ s.commands

  -- The ways in which a call ends: nothing was run, the fetch failed, the merge failed, or both went
  -- well and the fetch is recorded.
  pub data Ends (s : SyncState) : Result (Unit {0}) × SyncState → Type 0 where
    unchanged : (r : Result (Unit {0})) → Ends s (r, s)
    fetch_failed :
        succeeded (git.run_git s.commands (fetch_command config)) ≡ false
        → Ends s (sync_error, record s { commands = fetched s })
    merge_failed :
        succeeded (git.run_git s.commands (fetch_command config)) ≡ true
        → succeeded (git.run_git (fetched s) (merge_command config)) ≡ false
        → Ends s (sync_error, record s { commands = merge_command config ∷ fetched s })
    synced :
        succeeded (git.run_git s.commands (fetch_command config)) ≡ true
        → succeeded (git.run_git (fetched s) (merge_command config)) ≡ true
        → Ends s (
          ok tt,
          record {
            last_successful_fetch = (fetch_key config checkout, after) ∷ s.last_successful_fetch;
            commands = merge_command config ∷ fetched s;
          },
        )

  run_fetch-Ends : (s : SyncState) → Ends s (run_fetch git config checkout now after s)
  unfolding run_fetch run_merge
  run_fetch-Ends s = elim (Bool-cases (succeeded (git.run_git s.commands (fetch_command config)))) [
    | inr failed ↦ rw failed (Ends.fetch_failed failed)
    | inl done ↦ elim (Bool-cases (succeeded (git.run_git (fetched s) (merge_command config)))) [
      | inr failed ↦ rw (done, failed) (Ends.merge_failed done failed)
      | inl merged ↦ rw (done, merged) (Ends.synced done merged)
    ]
  ]

  sync_branch-Ends : (s : SyncState) → Ends s (sync_branch git config checkout now after s)
  unfolding sync_branch
  sync_branch-Ends s =
      elim (Bool-cases (
        is_recent config.claim_sync_interval now
          (last_fetch (fetch_key config checkout) s.last_successful_fetch))) [
            | inl recent ↦ rw recent (Ends.unchanged (ok tt))
            | inr stale ↦ rw stale (run_fetch-Ends s)
          ]

  sync_remote-Ends :
      (remote : Option String) (s : SyncState)
      → Ends s (sync_remote git config checkout now after remote s)
  unfolding sync_remote
  sync_remote-Ends none s = Ends.unchanged (ok tt)
  sync_remote-Ends (some url) s = sync_branch-Ends s

  sync_checkout-Ends :
      (branch : Option String) (s : SyncState)
      → Ends s (sync_checkout git config checkout now after branch s)
  unfolding sync_checkout
  sync_checkout-Ends none s = Ends.unchanged (ok tt)
  sync_checkout-Ends (some branch) s = elim (Bool-cases (branch == config.work_branch)) [
    | inr other ↦ rw other (Ends.unchanged (ok tt))
    | inl this ↦ rw this (sync_remote-Ends git.git_origin_url s)
  ]

  sync_status-Ends :
      (status : Option String) (s : SyncState)
      → Ends s (sync_status git config checkout now after status s)
  unfolding sync_status
  sync_status-Ends none s = Ends.unchanged sync_error
  sync_status-Ends (some status) s = elim (Bool-cases (is_empty status)) [
    | inr dirty ↦ rw dirty (Ends.unchanged sync_error)
    | inl clean ↦ rw clean (sync_checkout-Ends git.git_current_branch s)
  ]

-- Every call of the guard leaves the state alone, or runs the fetch, then the merge only after the
-- fetch went well; a fetch is recorded only when both went well, and a failure of either is refused.
pub enforce_claim_sync-Ends :
    (git : Git) (config : IssuekitConfig) (checkout : String) (now after : ℕ) (no_sync : Bool)
    (s : SyncState)
    → Ends git config checkout now after s
        (enforce_claim_sync git config checkout now after no_sync s)
unfolding enforce_claim_sync
enforce_claim_sync-Ends git config checkout now after no_sync s =
    elim (Bool-cases (no_sync || not config.claim_sync || is_empty config.work_branch)) [
      | inl skipped ↦ rw skipped (Ends.unchanged (ok tt))
      | inr needed ↦
          rw needed (sync_status-Ends git config checkout now after git.git_status_short s)
    ]

module _ (git : Git) (config : IssuekitConfig) (checkout : String) (after later again : ℕ)
    (s : SyncState)
    (recorded : last_fetch (fetch_key config checkout) s.last_successful_fetch ≡ some after)
    (soon : later < after + config.claim_sync_interval) where
  recent_remote :
      (remote : Option String) → sync_remote git config checkout later again remote s ≡ (ok tt, s)
  unfolding sync_remote sync_branch is_recent
  recent_remote none = refl
  recent_remote (some url) = rw recorded (ground arith)

  recent_checkout :
      (branch : Option String) → sync_checkout git config checkout later again branch s ≡ (ok tt, s)
  unfolding sync_checkout
  recent_checkout none = refl
  recent_checkout (some branch) = ground (arith, recent_remote git.git_origin_url)

-- While a fetch of the branch is recorded and its interval has not passed, a checkout whose status is
-- clean goes on without any command being run, whatever the commands would come to.
pub enforce_claim_sync-recent :
    (git : Git) (config : IssuekitConfig) (checkout : String) (after later again : ℕ)
    (no_sync : Bool) (s : SyncState)
    → last_fetch (fetch_key config checkout) s.last_successful_fetch ≡ some after
    → later < after + config.claim_sync_interval
    → git.git_status_short ≡ some ""
    → enforce_claim_sync git config checkout later again no_sync s ≡ (ok tt, s)
unfolding enforce_claim_sync sync_status
enforce_claim_sync-recent git config checkout after later again no_sync s recorded soon clean =
    let rest =
      recent_checkout git config checkout after later again s recorded soon
        git.git_current_branch in
    ground (arith, rest, clean)

synced-recorded :
    (config : IssuekitConfig) (checkout : String) (after : ℕ) (entries : List (FetchKey × ℕ))
    → last_fetch (fetch_key config checkout) ((fetch_key config checkout, after) ∷ entries)
      ≡ some after
unfolding last_fetch
synced-recorded config checkout after entries =
    ground (arith, eq_refl checkout, eq_refl "origin", eq_refl config.work_branch)
