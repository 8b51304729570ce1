-- ===== src/Guards/ClaimSync/Passed.antt =====
-- About `enforce_claim_sync` of guards/claim_sync.py: the ways in which a checkout passes it.
use mathlib.Core.Path.{subst}
use issuekit.Prelude.{
  ℕ, String, ◌≡◌, Bool, true, false, not, ◌||◌, none, some, ◌∷◌, ◌==◌, is_empty, Result, ok, err,
  arith, ap, sym, ◌∙◌, Bool-cases, Option-cases, inl, inr, eq_iff,
}
use issuekit.Config.{IssuekitConfig}
use issuekit.Guards.ClaimSync.{
  Git, SyncState, last_fetch, succeeded, is_recent, fetch_key, fetch_command, merge_command,
  run_merge, run_fetch, sync_branch, sync_remote, sync_checkout, sync_status, enforce_claim_sync,
}

module _ (git : Git) (config : IssuekitConfig) (checkout : String) (now after : ℕ) where
  -- The state once the fetch and the merge are done.
  abbrev pub synced_state : SyncState → SyncState
  synced_state s = record {
    last_successful_fetch = (fetch_key config checkout, after) ∷ s.last_successful_fetch;
    commands = merge_command config ∷ fetch_command config ∷ s.commands;
  }

  -- Why a checkout is not refused, and the state that is left.
  pub data IsPassed (no_sync : Bool) (s : SyncState) : SyncState → Type 0 where
    switched_off :
        (no_sync || not config.claim_sync || is_empty config.work_branch) ≡ true
        → IsPassed no_sync s s
    no_branch :
        git.git_status_short ≡ some "" → git.git_current_branch ≡ none → IsPassed no_sync s s
    elsewhere :
        (branch : String)
        → git.git_status_short ≡ some ""
        → git.git_current_branch ≡ some branch
        → (branch == config.work_branch) ≡ false
        → IsPassed no_sync s s
    no_remote : git.git_status_short ≡ some "" → git.git_origin_url ≡ none → IsPassed no_sync s s
    fetched_lately :
        git.git_status_short ≡ some ""
        → is_recent config.claim_sync_interval now
            (last_fetch (fetch_key config checkout) s.last_successful_fetch)
          ≡ true
        → IsPassed no_sync s s
    synced_now :
        git.git_status_short ≡ some ""
        → git.git_current_branch ≡ some config.work_branch
        → succeeded (git.run_git s.commands (fetch_command config)) ≡ true
        → succeeded (git.run_git (fetch_command config ∷ s.commands) (merge_command config)) ≡ true
        → IsPassed no_sync s (synced_state s)

  -- Nothing is said of a refusal.
  abbrev Passes : Bool → SyncState → Result (Unit {0}) × SyncState → Type 0
  Passes no_sync s (ok tt, s') = IsPassed no_sync s s'
  Passes no_sync s (err e, s') = Unit

  run_fetch-Passes :
      (no_sync : Bool) (s : SyncState)
      → git.git_status_short ≡ some ""
      → git.git_current_branch ≡ some config.work_branch
      → Passes no_sync s (run_fetch git config checkout now after s)
  unfolding run_fetch run_merge
  run_fetch-Passes no_sync s clean here =
      elim (Bool-cases (succeeded (git.run_git s.commands (fetch_command config)))) [
        | inr failed ↦ rw failed tt
        | inl fetched ↦
            elim (Bool-cases (
              succeeded (git.run_git (fetch_command config ∷ s.commands) (merge_command config)))) [
                | inr failed ↦ rw (fetched, failed) tt
                | inl merged ↦ rw (fetched, merged) (IsPassed.synced_now clean here fetched merged)
              ]
      ]

  sync_branch-Passes :
      (no_sync : Bool) (s : SyncState)
      → git.git_status_short ≡ some ""
      → git.git_current_branch ≡ some config.work_branch
      → Passes no_sync s (sync_branch git config checkout now after s)
  unfolding sync_branch
  sync_branch-Passes no_sync s clean here =
      elim (Bool-cases (
        is_recent config.claim_sync_interval now
          (last_fetch (fetch_key config checkout) s.last_successful_fetch))) [
            | inl recent ↦ rw recent (IsPassed.fetched_lately clean recent)
            | inr old ↦ rw old (run_fetch-Passes no_sync s clean here)
          ]

  sync_remote-Passes :
      (no_sync : Bool) (s : SyncState)
      → git.git_status_short ≡ some ""
      → git.git_current_branch ≡ some config.work_branch
      → Passes no_sync s (sync_remote git config checkout now after git.git_origin_url s)
  unfolding sync_remote
  sync_remote-Passes no_sync s clean here = elim (Option-cases git.git_origin_url) [
    | inl missing ↦
        subst (λ o. Passes no_sync s (sync_remote git config checkout now after o s)) (sym missing)
          (IsPassed.no_remote clean missing)
    | inr (url, given) ↦
        subst (λ o. Passes no_sync s (sync_remote git config checkout now after o s)) (sym given)
          (sync_branch-Passes no_sync s clean here)
  ]

  sync_checkout-Passes :
      (no_sync : Bool) (s : SyncState)
      → git.git_status_short ≡ some ""
      → Passes no_sync s (sync_checkout git config checkout now after git.git_current_branch s)
  unfolding sync_checkout
  sync_checkout-Passes no_sync s clean = elim (Option-cases git.git_current_branch) [
    | inl missing ↦
        subst (λ o. Passes no_sync s (sync_checkout git config checkout now after o s))
          (sym missing) (IsPassed.no_branch clean missing)
    | inr (branch, given) ↦
        subst (λ o. Passes no_sync s (sync_checkout git config checkout now after o s)) (sym given)
          (elim (Bool-cases (branch == config.work_branch)) [
            | inr other ↦ rw other (IsPassed.elsewhere branch clean given other)
            | inl here ↦
                let same : branch ≡ config.work_branch =
                  ground (arith, eq_iff branch config.work_branch) in
                rw here (sync_remote-Passes no_sync s clean (given ∙ ap some same))
          ])
  ]

  sync_status-Passes :
      (no_sync : Bool) (s : SyncState)
      → Passes no_sync s (sync_status git config checkout now after git.git_status_short s)
  unfolding sync_status
  sync_status-Passes no_sync s = elim (Option-cases git.git_status_short) [
    | inl missing ↦
        subst (λ o. Passes no_sync s (sync_status git config checkout now after o s)) (sym missing)
          tt
    | inr (status, given) ↦
        subst (λ o. Passes no_sync s (sync_status git config checkout now after o s)) (sym given)
          (elim (Bool-cases (is_empty status)) [
            | inr dirty ↦ rw dirty tt
            | inl empty ↦
                let same : status ≡ "" = ground (arith, eq_iff status "") in
                rw empty (sync_checkout-Passes no_sync s (given ∙ ap some same))
          ])
  ]

  enforce_claim_sync-Passes :
      (no_sync : Bool) (s : SyncState)
      → Passes no_sync s (enforce_claim_sync git config checkout now after no_sync s)
  unfolding enforce_claim_sync
  enforce_claim_sync-Passes no_sync s =
      elim (Bool-cases (no_sync || not config.claim_sync || is_empty config.work_branch)) [
        | inl off ↦ rw off (IsPassed.switched_off off)
        | inr needed ↦ rw needed (sync_status-Passes no_sync s)
      ]

  -- A checkout that is not refused passes for one of the reasons, with the state that belongs to it.
  pub enforce_claim_sync-IsPassed :
      (no_sync : Bool) (s s' : SyncState)
      → enforce_claim_sync git config checkout now after no_sync s ≡ (ok tt, s')
      → IsPassed no_sync s s'
  enforce_claim_sync-IsPassed no_sync s s' e =
      subst (Passes no_sync s) e (enforce_claim_sync-Passes no_sync s)
