-- ===== src/Workflow/Recover.antt =====
-- workflow.py: taking a claim away, and opening a directed issue to everybody.
pub mod Flagged
use issuekit.Prelude.{
  ℕ, String, Bool, true, false, not, Option, none, some, List, [], ◌∷◌, if◌then◌else◌, ◌==◌,
  is_empty, eqb, Result, ok, err, workflow, guard, ◌>>=◌, ◌>>◌,
}
use issuekit.Prelude.Effects.{Effect, return, fail, lift, then_do}
use issuekit.Core.WorkerKey.{WorkerRow}
use issuekit.Config.{IssuekitConfig}
use issuekit.Issues.Orphans
use issuekit.Issues.Orphans.{StaleClaim, Clock, detect_stale_claims}
use issuekit.Workflow.Transitions.{Issue, IssueStore, validate_stage, require_ascii, reclaim_actor}

pub record ReclaimResult : Type 0 where
  pub previous : Issue
  pub issue : Issue
  pub reason : Option String
  pub expected_worker : Option String
  pub actor : String
  pub audit_reason : Option String

pub record ReaddressResult : Type 0 where
  pub previous : Issue
  pub issue : Issue
  pub expected_target_worker : String
  pub actor : String
  pub audit_reason : Option String

-- What the API answers to the listings of workers and issues, with the parser and reader of times.
pub record Listings : Type 0 where
  pub workers : Result (List WorkerRow)
  pub issues : Result (List Orphans.Issue)
  pub fromisoformat : String → Option ℕ
  pub now : ℕ

-- `DEFAULT_STALE_AFTER_SEC` if none is given
abbrev or_default_stale : Option ℕ → ℕ
or_default_stale none = 300
or_default_stale (some seconds) = seconds

unfoldable pub list_stale_claims : Listings → Option ℕ → Result (List StaleClaim)
list_stale_claims listings stale_after_sec = do
  workers ← listings.workers
  issues ← listings.issues
  ok (
      detect_stale_claims
        (record {
          fromisoformat = listings.fromisoformat;
          now = listings.now;
          stale_after_sec = or_default_stale stale_after_sec;
        })
        workers issues)

abbrev is_id : ℕ → Option ℕ → Bool
is_id n none = false
is_id n (some m) = eqb m n

unfoldable pub find_claim : ℕ → List StaleClaim → Option StaleClaim
find_claim n [] = none
find_claim n (claim ∷ claims) = if is_id n claim.issue.id then some claim else find_claim n claims

abbrev pub found_claim : Option StaleClaim → Result (Option StaleClaim)
found_claim none = err (workflow "not_stale")
found_claim (some claim) = ok (some claim)

-- The claim that the recovery is for; a forced one looks for none.
unfoldable pub recovered_claim : Listings → ℕ → Bool → Option ℕ → Result (Option StaleClaim)
recovered_claim listings issue_id force stale_after_sec =
    if force
    then ok none
    else (list_stale_claims listings stale_after_sec >>= λ claims.
        found_claim (find_claim issue_id claims))

-- `claim.worker if claim is not None else previous.worker or None`
unfoldable pub expected_holder : Option StaleClaim → Issue → Option String
expected_holder (some claim) previous = some claim.worker
expected_holder none previous = if is_empty previous.worker then none else some previous.worker

abbrev pub claim_reason : Option StaleClaim → Option String
claim_reason none = none
claim_reason (some claim) = some claim.reason

unfoldable pub reclaim_checks : IssuekitConfig → Option String → Result (Unit {0})
reclaim_checks config reason = do validate_stage "implementing" config; require_ascii reason

module _ {S : Type 0} (api : IssueStore S) (config : IssuekitConfig) where
  unfoldable pub reclaimed : ℕ → Option String → Issue → Option StaleClaim → Effect S ReclaimResult
  reclaimed issue_id reason previous claim =
      then_do
        (api.reclaim_issue issue_id (expected_holder claim previous) (reclaim_actor config) reason)
        (λ issue. return (record {
          previous = previous;
          issue = issue;
          reason = claim_reason claim;
          expected_worker = expected_holder claim previous;
          actor = reclaim_actor config;
          audit_reason = reason;
        }))

  unfoldable pub reclaim_previous :
      Listings → ℕ → Bool → Option ℕ → Option String → Option Issue → Effect S ReclaimResult
  reclaim_previous listings issue_id force stale_after_sec reason none = fail (workflow "not_found")
  reclaim_previous listings issue_id force stale_after_sec reason (some previous) =
      if not (previous.stage == "implementing")
      then fail (workflow "invalid_transition")
      else then_do (lift (recovered_claim listings issue_id force stale_after_sec))
          (reclaimed issue_id reason previous)

  unfoldable pub reclaim_issue :
      Listings → ℕ → Bool → Option ℕ → Option String → Effect S ReclaimResult
  reclaim_issue listings issue_id force stale_after_sec reason =
      then_do (lift (reclaim_checks config reason)) (λ _.
        then_do (api.get_issue issue_id)
          (reclaim_previous listings issue_id force stale_after_sec reason))

  unfoldable pub readdressed : ℕ → Option String → Issue → Effect S ReaddressResult
  readdressed issue_id reason previous =
      then_do (api.readdress_issue issue_id previous.target_worker (reclaim_actor config) reason)
        (λ issue. return (record {
          previous = previous;
          issue = issue;
          expected_target_worker = previous.target_worker;
          actor = reclaim_actor config;
          audit_reason = reason;
        }))

  unfoldable pub readdress_previous : ℕ → Option String → Option Issue → Effect S ReaddressResult
  readdress_previous issue_id reason none = fail (workflow "not_found")
  readdress_previous issue_id reason (some previous) =
      if is_empty previous.target_worker
      then fail (workflow "invalid_transition")
      else readdressed issue_id reason previous

  unfoldable pub readdress_issue : ℕ → Option String → Effect S ReaddressResult
  readdress_issue issue_id reason =
      then_do (lift (require_ascii reason))
        (λ _. then_do (api.get_issue issue_id) (readdress_previous issue_id reason))
