-- ===== src/Issues/Server/Effects.antt =====
-- What each operation of the server may change: one row, under its id.
use mathlib.Core.Path.{subst}
use issuekit.Prelude.{
  ℕ, String, ◌≡◌, refl, Bool, true, false, Option, some, List, [], ◌∷◌, if◌then◌else◌, arith, In,
  ◌∙◌, none, Result, ok, ◌||◌, sym, Result-cases, Bool-cases, inl, inr, ◌==◌, here, ap,
}
use issuekit.Issues.Row.{Issue, Fields}
use issuekit.Issues.Server.{
  FakeIssueSurface, log, lookup, store, save, on_issue, create_issue, update_issue, updated,
  store_issue, stored_row, or_id,
}
use issuekit.Issues.Server.Rows.{
  OnIssue, on_issue-OnIssue, failed, IsKeyed, lookup-store, store-IsKeyed, lookup-id, lookup-values,
}
use issuekit.Issues.Server.Rows
use issuekit.Issues.Server.Work.{planned, claim_issue, claimed, reclaimed, claim_checks, Claimant}
use issuekit.Issues.Server.Review.{
  readdressed, dispatched, submitted, returned, approved, completed,
}
use issuekit.Issues.Server.Next.{
  values, candidates, is_candidate, sorted, claim_first, claim_next, is_before,
}
use issuekit.Issues.Server.Next.Sort.{In-select, In-sorted}
use issuekit.Issues.Server.Op.{
  IsSameId, KeepsId, Op, run_op, outcome, Effect, SameRows, unchanged, wrote, created,
}
use issuekit.Issues.Server.Review
use issuekit.Issues.Server.Work
use issuekit.Issues.Server

-- A check of a row that keeps the row's id.
abbrev Keeps : (Issue → Result Issue) → Type 0
Keeps change = (i r : Issue) → change i ≡ ok r → r.id ≡ i.id

planned-Keeps : (stage : String) → Keeps (planned stage)
unfolding planned
planned-Keeps stage i r h = ground arith

claim_issue-Keeps : (c : Claimant) → Keeps (claim_issue c)
unfolding claim_issue claimed
claim_issue-Keeps c i r h = elim (Result-cases (claim_checks c i)) [
  | inl (u, passed) ↦ ground arith
  | inr (e, refused) ↦ ground arith
]

reclaimed-Keeps : (worker : Option String) → Keeps (reclaimed worker)
unfolding reclaimed
reclaimed-Keeps worker i r h = ground arith

readdressed-Keeps : (worker : Option String) → Keeps (readdressed worker)
unfolding readdressed
readdressed-Keeps worker i r h = ground arith

dispatched-Keeps : (w : String) (a t : Option String) → Keeps (dispatched w a t)
unfolding dispatched
dispatched-Keeps w a t i r h = ground arith

submitted-Keeps : (x : Review.Submission) → Keeps (submitted x)
unfolding submitted
submitted-Keeps x i r h = ground arith

approved-Keeps : (x : Review.Approval) → Keeps (approved x)
unfolding approved
approved-Keeps x i r h = ground arith

sent_id : (o : Option ℕ) (n old : ℕ) → old ≡ n → IsSameId n o → or_id old o ≡ old
sent_id none n old named same = refl
sent_id (some m) n old named same = same ∙ sym named

updated-id : (n : ℕ) (f : Fields) (i : Issue) → i.id ≡ n → IsSameId n f.id → (updated f i).id ≡ i.id
unfolding updated
updated-id n f i named same = sent_id f.id n i.id named same

returned-Keeps : (x : Review.ChangeRequest) → Keeps (returned x)
unfolding returned
returned-Keeps x i r h = ground arith

completed-Keeps : Keeps completed
unfolding completed
completed-Keeps i r h = ground arith

logged :
    (s : FakeIssueSurface) (m : String) (n : Option ℕ) (b : List (String × Server.Value))
    → SameRows s (log m n b s)
logged s m n b = record { issues = refl; next_id = refl }

logged_unless :
    (b : Bool) (s : FakeIssueSurface) (m : String) (n : Option ℕ)
    (body : List (String × Server.Value))
    → SameRows s (if b then s else log m n body s)
logged_unless true s m n body = record { issues = refl; next_id = refl }
logged_unless false s m n body = logged s m n body

OnIssue-Effect :
    {K : Type 0} {n : ℕ} {change : Issue → Result Issue} {s t : FakeIssueSurface}
    {r : Result Issue × FakeIssueSurface}
    → SameRows s t
    → Keeps change
    → OnIssue n change t r
    → Effect K s (outcome r)
OnIssue-Effect same keeps (failed e) = unchanged same
OnIssue-Effect {n} {change} {s} {t} same keeps (Rows.wrote old new found made) =
    wrote n old new (rw same.issues at found) (λ k. keeps old new made)
      (ap (store n new) same.issues) same.next_id

on_issue-Effect :
    {K : Type 0} (n : ℕ) (change : Issue → Result Issue) (s t : FakeIssueSurface)
    → SameRows s t
    → Keeps change
    → Effect K s (outcome (on_issue n change t))
on_issue-Effect n change s t same keeps = OnIssue-Effect same keeps (on_issue-OnIssue n change t)

plan-Effect :
    {K : Type 0} (n : ℕ) (stage : String) (actor remark : Option String) (s : FakeIssueSurface)
    → Effect K s (outcome (Work.plan n stage actor remark s))
unfolding Work.plan
plan-Effect n stage actor remark s = elim (Bool-cases (stage == "planned" || stage == "todo")) [
  | inl valid ↦
      rw (valid, if◌then◌else◌)
        (on_issue-Effect n (planned stage) s _ (logged_unless _ s _ _ _) (planned-Keeps stage))
  | inr invalid ↦ rw (invalid, if◌then◌else◌) (unchanged (record { issues = refl; next_id = refl }))
]

claim_first-Effect :
    {K : Type 0} (c : Claimant) (is : List Issue) (s t : FakeIssueSurface)
    → SameRows s t
    → ((i : Issue) (rest : List Issue) → is ≡ i ∷ rest → lookup i.id s.issues ≡ some i)
    → Effect K s (outcome (claim_first c is t))
unfolding claim_first
claim_first-Effect c [] s t same stored = unchanged same
claim_first-Effect c (i ∷ is) s t same stored = elim (Result-cases (claim_issue c i)) [
  | inr (e, refused) ↦ rw refused (unchanged same)
  | inl (new, made) ↦ rw made (
      wrote i.id i new (stored i is refl) (λ k. claim_issue-Keeps c i new made)
        (ap (store i.id new) same.issues) same.next_id)
]

claim_next-Effect :
    {K : Type 0} (c : Claimant) (priority : Option String) (s : FakeIssueSurface)
    → IsKeyed s.issues
    → Effect K s (outcome (claim_next c priority s))
unfolding claim_next candidates
claim_next-Effect c priority s keyed =
    let rows = candidates c priority s.issues in
    claim_first-Effect c (sorted is_before rows) s _ (logged s _ _ _) (λ i rest first.
      lookup-values s.issues i keyed
        (In-select (is_candidate c priority) (values s.issues)
          (In-sorted is_before rows (subst (In i) (sym first) here))).0)

create_issue-Effect :
    {K : Type 0} (f : Fields) (session : Option String) (s : FakeIssueSurface)
    → Effect K s (outcome (create_issue f session s))
unfolding create_issue store_issue stored_row
create_issue-Effect f session s = created _ refl refl (omega arith)

OnIssue-updated :
    (n : ℕ) (f : Fields) (s t : FakeIssueSurface) {r : Result Issue × FakeIssueSurface}
    → SameRows s t
    → IsKeyed s.issues
    → OnIssue n (λ i. ok (updated f i)) t r
    → Effect (IsSameId n f.id) s (outcome r)
OnIssue-updated n f s t same keyed (failed e) = unchanged same
OnIssue-updated n f s t same keyed (Rows.wrote old new found made) =
    let there = rw same.issues at found in
    let is : updated f old ≡ new = cc in
    wrote n old new there
      (λ k.
        ap (λ (i : Issue). i.id) (sym is) ∙ updated-id n f old (lookup-id n s.issues keyed there) k)
      (ap (store n new) same.issues) same.next_id

pub run_op-Effect :
    (op : Op) (s : FakeIssueSurface) → IsKeyed s.issues → Effect (KeepsId op) s (run_op op s)
unfolding run_op update_issue Work.claim Work.reclaim Review.readdress Review.dispatch Review.submit
    Review.request_changes Review.approve Review.complete
run_op-Effect (Op.create f session) s h = create_issue-Effect f session s
run_op-Effect (Op.update n f) s h =
    OnIssue-updated n f s _ (logged s _ _ _) h (on_issue-OnIssue n (λ i. ok (updated f i)) _)
run_op-Effect (Op.plan n stage actor remark) s h = plan-Effect n stage actor remark s
run_op-Effect (Op.claim n c) s h =
    on_issue-Effect n (claim_issue c) s _ (logged s _ _ _) (claim_issue-Keeps c)
run_op-Effect (Op.claim_next c priority) s h = claim_next-Effect c priority s h
run_op-Effect (Op.reclaim n worker actor reason) s h =
    on_issue-Effect n (reclaimed worker) s _ (logged s _ _ _) (reclaimed-Keeps worker)
run_op-Effect (Op.readdress n worker actor reason) s h =
    on_issue-Effect n (readdressed worker) s _ (logged s _ _ _) (readdressed-Keeps worker)
run_op-Effect (Op.dispatch n worker assignee stage) s h =
    on_issue-Effect n _ s _ (logged s _ _ _) (dispatched-Keeps _ assignee stage)
run_op-Effect (Op.submit n x) s h =
    on_issue-Effect n (submitted x) s _ (logged s _ _ _) (submitted-Keeps x)
run_op-Effect (Op.request_changes n x) s h =
    on_issue-Effect n (returned x) s _ (logged s _ _ _) (returned-Keeps x)
run_op-Effect (Op.approve n x) s h =
    on_issue-Effect n (approved x) s _ (logged s _ _ _) (approved-Keeps x)
run_op-Effect (Op.complete n summary verification force model effort) s h =
    on_issue-Effect n completed s _ (logged s _ _ _) completed-Keeps
