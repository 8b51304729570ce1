-- ===== src/Issues/Claim.antt =====
-- Who may claim an issue, and who may approve it: testing/issues.py.
pub mod Next
use issuekit.Prelude.{
  ℕ, String, ◌≡◌, refl, ◌≢◌, Bool, true, false, not, ◌&&◌, ◌||◌, Option, none, some, List,
  if◌then◌else◌, eqb, arith, Result, ok, err, Error, workflow, ◌==◌, eq_iff, ◌>>=◌, ◌⊎◌, inl, inr,
  is_empty, or_empty, Option-cases, Result-cases, Bool-cases, ◌∙◌, ap, eqb_iff, guard,
}
use issuekit.Issues.Row.{
  Issue, is_claimable_status, is_ready_stage, is_open_to, is_self_review,
  is_forbidden_self_implement, matches_target_worker,
}
use issuekit.Core.WorkerKey.{worker_keys_match}
use issuekit.Issues.Server.{FakeIssueSurface, lookup, store, find, on_issue}
use issuekit.Issues.Server.Rows.{lookup-store}
use issuekit.Issues.Server.Work.{Claimant, claim_checks, claimed, claim_issue, claim}
use issuekit.Issues.Server.Review.{Approval, approved, approve}

-- Inversion of an operation that succeeds.
pub on_issue-ok :
    (n : ℕ) (change : Issue → Result Issue) (s : FakeIssueSurface) {r : Issue}
    → (on_issue n change s).0 ≡ ok r
    → (old : Issue) × (lookup n s.issues ≡ some old)
      × (change old ≡ ok r)
      × ((on_issue n change s).1.issues ≡ store n r s.issues)
unfolding on_issue find
on_issue-ok n change s {r} h = elim (Option-cases (lookup n s.issues)) [
  | inl missing ↦ absurd (ground arith)
  | inr (old, found) ↦ elim (Result-cases (change old)) [
    | inr (e, refused) ↦ absurd (ground arith)
    | inl (new, made) ↦
        let same : new ≡ r = ground arith in
        (old, found, made ∙ ap ok same, rw (found, find, made, same) refl)
  ]
]

-- Inversion of a claim that is granted.
pub claim_issue-ok :
    (c : Claimant) (i : Issue) {r : Issue}
    → claim_issue c i ≡ ok r
    → (claim_checks c i ≡ ok tt)
      × (is_forbidden_self_implement i c.assignee c.allow_self_implement c.session ≡ false)
      × (r ≡ claimed c i)
unfolding claim_issue
claim_issue-ok c i {r} h = elim (Result-cases (claim_checks c i)) [
  | inr (e, refused) ↦ absurd (ground arith)
  | inl (tt, passed) ↦
      elim (Bool-cases
        (is_forbidden_self_implement i c.assignee c.allow_self_implement c.session)) [
          | inl forbidden ↦ absurd (ground arith)
          | inr allowed ↦ (passed, allowed, ground arith)
        ]
]

stored_row :
    (n : ℕ) (r : Issue) (rows now : List (ℕ × Issue)) → now ≡ store n r rows → lookup n now ≡ some r
stored_row n r rows now same =
    ap (lookup n) same ∙ ground (arith, lookup-store n n r rows, eqb_iff n n)

on_issue-err :
    (n : ℕ) (change : Issue → Result Issue) (s : FakeIssueSurface) {i : Issue} {e : Error}
    → lookup n s.issues ≡ some i
    → change i ≡ err e
    → (on_issue n change s).0 ≡ err e
unfolding on_issue find
on_issue-err n change s found refused = rw (found, find, refused) refl

claimed-refuses :
    (a b : Claimant) (i : Issue)
    → is_empty a.assignee ≡ false
    → a.assignee ≢ b.assignee
    → claim_issue b (claimed a i) ≡ err (workflow "invalid_transition")
unfolding claim_issue claim_checks claimed is_claimable_status is_ready_stage is_open_to
claimed-refuses a b i named other = ground (arith, eq_iff a.assignee b.assignee)

-- After a claim that is granted to a named assignee, a claim of the same issue for another assignee
-- is refused as an invalid transition, from whatever worker and session.
pub claim-exclusive :
    (n : ℕ) (a b : Claimant) (s : FakeIssueSurface) {r : Issue}
    → (claim n a s).0 ≡ ok r
    → is_empty a.assignee ≡ false
    → a.assignee ≢ b.assignee
    → (claim n b (claim n a s).1).0 ≡ err (workflow "invalid_transition")
unfolding claim
claim-exclusive n a b s {r} h named other =
    let (old, found, granted, stored) = on_issue-ok n (claim_issue a) _ h in
    let (passed, allowed, row) = claim_issue-ok a old granted in
    on_issue-err n (claim_issue b) _ (stored_row n r s.issues _ stored)
      (ap (claim_issue b) row ∙ claimed-refuses a b old named other)

-- The reviewer is not the implementer: another name, or the same name at two workers that are both
-- recorded and whose keys do not match.
abbrev pub IsOther : Approval → Issue → Type 0
IsOther x i =
    (i.implementer ≢ x.reviewer)
    ⊎ ((is_empty i.worker ≡ false)
        × (is_empty (or_empty x.worker) ≡ false)
        × (worker_keys_match false i.worker (or_empty x.worker) ≡ false))

approved-ok :
    (x : Approval) (i : Issue) {r : Issue}
    → approved x i ≡ ok r
    → (i.stage ≡ "review") × (r.status ≡ "completed") × (r.stage ≡ "done") × IsOther x i
unfolding approved is_self_review
approved-ok x i {r} h = elim (Bool-cases (i.implementer == x.reviewer)) [
  | inl same ↦ (
    ground (arith, eq_iff i.stage "review"),
    ground arith,
    ground arith,
    inr (ground arith, ground arith, ground arith),
  )
  | inr other ↦ (
    ground (arith, eq_iff i.stage "review"),
    ground arith,
    ground arith,
    inl (λ same. ground (arith, eq_iff i.implementer x.reviewer)),
  )
]

-- An issue that is approved was in review, is completed and done after it, and was implemented under
-- another name than the reviewer's, or under the same name at a worker that is recorded and whose key does
-- not match the worker that the reviewer gives.
pub approve-ok :
    (n : ℕ) (x : Approval) (s : FakeIssueSurface) {r : Issue}
    → (approve n x s).0 ≡ ok r
    → (old : Issue) × (lookup n s.issues ≡ some old)
      × (old.stage ≡ "review")
      × (r.status ≡ "completed")
      × (r.stage ≡ "done")
      × IsOther x old
unfolding approve
approve-ok n x s {r} h =
    let (old, found, passed, stored) = on_issue-ok n (approved x) _ h in
    let (stage, status, done, other) = approved-ok x old passed in
    (old, found, stage, status, done, other)

-- The author of an issue, under a nonempty name, is granted it if it is claimable, ready, open to the
-- worker, not assigned and records no author session; no session and no permission are asked for.
pub claim_issue-author :
    (c : Claimant) (i : Issue)
    → i.author ≡ c.assignee
    → i.author_session ≡ ""
    → i.assignee ≡ ""
    → is_empty c.assignee ≡ false
    → is_claimable_status i.status ≡ true
    → is_ready_stage i.stage ≡ true
    → matches_target_worker i c.worker ≡ true
    → claim_issue c i ≡ ok (claimed c i)
unfolding claim_issue claim_checks is_open_to is_forbidden_self_implement
claim_issue-author c i author session free named status stage target = ground (
  arith,
  eq_iff i.author_session "",
  eq_iff i.assignee "",
  eq_iff "" c.assignee,
  eq_iff c.assignee "",
)
