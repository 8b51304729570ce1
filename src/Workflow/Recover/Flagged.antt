-- ===== src/Workflow/Recover/Flagged.antt =====
-- A claim that is taken away without force was flagged.
use mathlib.Core.Path.{subst}
use issuekit.Prelude.{
  ℕ, String, ◌≡◌, true, false, not, Option, none, some, List, [], ◌∷◌, if◌then◌else◌, ◌==◌, Result,
  ok, err, workflow, ap, sym, ◌∙◌, In, here, there, inl, inr, Bool-cases, Result-cases,
  Option-cases,
}
use issuekit.Prelude.Effects.{lift, then_do-ok}
use issuekit.Config.{IssuekitConfig}
use issuekit.Issues.Orphans.{StaleClaim}
use issuekit.Workflow.Transitions.{Issue, IssueStore, reclaim_actor}
use issuekit.Workflow.Recover.{
  ReclaimResult, Listings, list_stale_claims, find_claim, is_id, recovered_claim, expected_holder,
  reclaim_checks, claim_reason, reclaimed, reclaim_previous, reclaim_issue,
}

find_claim-In :
    (n : ℕ) (claims : List StaleClaim) {claim : StaleClaim}
    → find_claim n claims ≡ some claim
    → In claim claims × (is_id n claim.issue.id ≡ true)
unfolding find_claim
find_claim-In n [] found = cc
find_claim-In n (other ∷ claims) {claim} found = elim (Bool-cases (is_id n other.issue.id)) [
  | inl this ↦
      let e : ◌≡◌ {A = Option StaleClaim} (some other) (some claim) =
        rw (this, if◌then◌else◌) at found in
      let same : other ≡ claim = cc in
      (
        subst (λ x. In x (other ∷ claims)) same here,
        ap (λ (x : StaleClaim). is_id n x.issue.id) (sym same) ∙ this,
      )
  | inr fails ↦
      let (i, holds) = find_claim-In n claims (rw (fails, if◌then◌else◌) at found) in
      (there i, holds)
]

-- What a recovery without force goes by, and what it asks of the store.
pub record IsFlagged {S : Type 0} (api : IssueStore S) (config : IssuekitConfig)
    (listings : Listings) (issue_id : ℕ) (stale_after_sec : Option ℕ) (reason : Option String)
    (s s' : S) (result : ReclaimResult) : Type 0 where
  pub claims : List StaleClaim
  pub claim : StaleClaim
  pub listed : list_stale_claims listings stale_after_sec ≡ ok claims
  pub flagged : In claim claims
  pub this : is_id issue_id claim.issue.id ≡ true
  pub implementing : (result.previous.stage == "implementing") ≡ true
  pub holder : result.expected_worker ≡ some claim.worker
  pub why : result.reason ≡ some claim.reason
  pub read : S
  pub found : api.get_issue issue_id s ≡ (ok (some result.previous), read)
  pub taken :
      api.reclaim_issue issue_id (some claim.worker) (reclaim_actor config) reason read
      ≡ (ok result.issue, s')

recovered_claim-flagged :
    (listings : Listings) (issue_id : ℕ) (stale_after_sec : Option ℕ) {o : Option StaleClaim}
    → recovered_claim listings issue_id false stale_after_sec ≡ ok o
    → (claims : List StaleClaim) × (claim : StaleClaim) × (list_stale_claims listings
          stale_after_sec
        ≡ ok claims)
      × (o ≡ some claim)
      × (find_claim issue_id claims ≡ some claim)
unfolding recovered_claim
recovered_claim-flagged listings issue_id stale_after_sec {o} h =
    elim (Result-cases (list_stale_claims listings stale_after_sec)) [
      | inr (e, failed) ↦
          let bad : ◌≡◌ {A = Result (Option StaleClaim)} (err e) (ok o) = rw failed at h in cc
      | inl (claims, listed) ↦ elim (Option-cases (find_claim issue_id claims)) [
        | inl unfound ↦
            let bad : ◌≡◌ {A = Result (Option StaleClaim)} (err (workflow "not_stale")) (ok o) =
              rw (listed, unfound) at h in
            cc
        | inr (claim, found) ↦
            let good : ◌≡◌ {A = Result (Option StaleClaim)} (ok (some claim)) (ok o) =
              rw (listed, found) at h in
            (claims, claim, listed, cc, found)
      ]
    ]

reclaim_previous-IsFlagged :
    {S : Type 0} (api : IssueStore S) (config : IssuekitConfig) (listings : Listings) (issue_id : ℕ)
    (stale_after_sec : Option ℕ) (reason : Option String) (o : Option Issue) (start s : S)
    {result : ReclaimResult} {s' : S}
    → api.get_issue issue_id start ≡ (ok o, s)
    → reclaim_previous api config listings issue_id false stale_after_sec reason o s
      ≡ (ok result, s')
    → IsFlagged api config listings issue_id stale_after_sec reason start s' result
unfolding reclaim_previous reclaimed expected_holder
reclaim_previous-IsFlagged api config listings issue_id stale_after_sec reason none start s {result}
      {s'} read h =
    let bad = ap (λ t. t.0) h in cc
reclaim_previous-IsFlagged {S = S} api config listings issue_id stale_after_sec reason
      (some previous) start s {result} {s'} read h =
    elim (Bool-cases (previous.stage == "implementing")) [
      | inr other ↦
          let bad : ◌≡◌ {A = Result ReclaimResult × S} (err (workflow "invalid_transition"), s)
              (ok result, s') =
            rw (other, not, if◌then◌else◌) at h in
          let worse = ap (λ t. t.0) bad in cc
      | inl implementing ↦
          let (o, s1, recovered, rest) =
            then_do-ok (lift (recovered_claim listings issue_id false stale_after_sec)) _ s
              (rw (implementing, not, if◌then◌else◌) at h) in
          let (claims, claim, listed, same, found) =
            recovered_claim-flagged listings issue_id stale_after_sec (ap (λ t. t.0) recovered) in
          let (issue, s2, stored, last) =
            then_do-ok (api.reclaim_issue issue_id _ _ reason) _ s1 rest in
          let made : ReclaimResult = record {
            previous = previous;
            issue = issue;
            reason = claim_reason o;
            expected_worker = expected_holder o previous;
            actor = reclaim_actor config;
            audit_reason = reason;
          } in
          let e : ◌≡◌ {A = Result ReclaimResult} (ok made) (ok result) = ap (λ t. t.0) last in
          let is : made ≡ result = cc in
          let (flagged, this) = find_claim-In issue_id claims found in
          let unread : s ≡ s1 = ap (λ t. t.1) recovered in
          let left : s2 ≡ s' = ap (λ t. t.1) last in
          let holder = ap (λ x. expected_holder x previous) same in
          let call = λ (w : Option String) (v : S).
            api.reclaim_issue issue_id w (reclaim_actor config) reason v in
          let ends : ◌≡◌ {A = Result Issue × S} (ok issue, s2) (ok result.issue, s') =
            ap (λ v. (ok issue, v)) left ∙ ap (λ (r : ReclaimResult). (ok r.issue, s')) is in
          record {
            claims = claims;
            claim = claim;
            listed = listed;
            flagged = flagged;
            this = this;
            implementing =
                ap (λ (r : ReclaimResult). r.previous.stage == "implementing") (sym is)
                ∙ implementing;
            holder =
                ap (λ (r : ReclaimResult). r.expected_worker) (sym is)
                ∙ ap (λ x. expected_holder x previous) same;
            why = ap (λ (r : ReclaimResult). r.reason) (sym is) ∙ ap claim_reason same;
            read = s;
            found = read ∙ ap (λ (r : ReclaimResult). (ok (some r.previous), s)) is;
            taken =
                ap (λ w. call w s) (sym holder)
                ∙ ap (call (expected_holder o previous)) unread
                ∙ stored
                ∙ ends;
          }
    ]

-- Without force, an issue is taken from its worker only when it was read as being implemented and its
-- claim is among those that are detected as orphaned or stale, and what the store then does is what it
-- does for a caller that expects the worker of that claim.
pub reclaim_issue-IsFlagged :
    {S : Type 0} (api : IssueStore S) (config : IssuekitConfig) (listings : Listings) (issue_id : ℕ)
    (stale_after_sec : Option ℕ) (reason : Option String) (s : S) {result : ReclaimResult} {s' : S}
    → reclaim_issue api config listings issue_id false stale_after_sec reason s ≡ (ok result, s')
    → IsFlagged api config listings issue_id stale_after_sec reason s s' result
unfolding reclaim_issue
reclaim_issue-IsFlagged api config listings issue_id stale_after_sec reason s {result} {s'} h =
    let (a, s1, checked, rest) = then_do-ok (lift (reclaim_checks config reason)) _ s h in
    let (o, s2, found, rest) = then_do-ok (api.get_issue issue_id) _ s1 rest in
    let read = ap (api.get_issue issue_id) (ap (λ t. t.1) checked) ∙ found in
    reclaim_previous-IsFlagged api config listings issue_id stale_after_sec reason o s s2 read rest
