-- ===== src/Issues/Server/Work.antt =====
-- testing/issues.py: planning and claiming: what an operation does to a row, and its call.
use issuekit.Prelude.{
  ℕ, String, Bool, true, not, ◌&&◌, ◌||◌, Option, none, some, List, [], ◌∷◌, ◌++◌, if◌then◌else◌,
  ◌==◌, is_empty, Result, ok, err, Error, workflow, guard, raised, ◌>>=◌, ◌>>◌,
}
use issuekit.Issues.Row.{
  Issue, or_default, is_claimable_status, is_ready_stage, is_open_to, matches_target_worker,
  is_forbidden_self_implement, has_dependency_warning,
}
use issuekit.Issues.Server.{Value, flag, FakeIssueSurface, drop_none, log, find, on_issue}

abbrev pub Exec : Type 0
Exec = FakeIssueSurface → Result Issue × FakeIssueSurface

abbrev pub invalid_transition : Error
invalid_transition = workflow "invalid_transition"

-- The body of a call: `key: True` stands in it only if it is set.
abbrev pub with_flag : String → Bool → List (String × Value) → List (String × Value)
with_flag key set body = if set then body ++ (key, flag true) ∷ [] else body

unfoldable pub planned : String → Issue → Result Issue
planned stage issue = do
  guard (issue.stage == "todo" || issue.stage == "planned") invalid_transition
  ok (record issue { stage = stage })

-- `plan` records its call behind its checks.
unfoldable pub plan : ℕ → String → Option String → Option String → Exec
plan n stage actor remark s =
    let body = drop_none (("stage", some stage) ∷ ("actor", actor) ∷ ("note", remark) ∷ []) in
    let made = find n s >>= planned stage in
    if stage == "planned" || stage == "todo"
    then on_issue n (planned stage) (if raised made then s else log "plan" (some n) body s)
    else (err (workflow "invalid_stage"), s)

-- What a caller claims with.
pub record Claimant : Type 0 where
  pub assignee : String
  pub worker : Option String
  pub allow_self_implement : Bool
  pub session : Option String

-- The four tests that every candidate of `claim_next` has passed, in the order of the code.
unfoldable pub claim_checks : Claimant → Issue → Result (Unit {0})
claim_checks c issue = do
  guard (is_claimable_status issue.status) invalid_transition
  guard (is_ready_stage issue.stage || issue.stage == "implementing") invalid_transition
  guard (is_open_to issue.assignee c.assignee) invalid_transition
  guard (matches_target_worker issue c.worker) invalid_transition

unfoldable pub claimed : Claimant → Issue → Issue
claimed c issue = record issue {
  status = "in_progress";
  assignee = c.assignee;
  stage = "implementing";
  implementer = c.assignee;
  implementer_session = or_default issue.implementer_session c.session;
  worker = or_default issue.worker c.worker;
}

-- `_claim_issue`
unfoldable pub claim_issue : Claimant → Issue → Result Issue
claim_issue c issue = do
  claim_checks c issue
  guard (not (is_forbidden_self_implement issue c.assignee c.allow_self_implement c.session))
      (workflow "forbidden_self_implement")
  ok (claimed c issue)

pub claim_body : Claimant → List (String × Value)
claim_body c =
    with_flag "allow_self_implement" c.allow_self_implement (
      drop_none
        (("assignee", some c.assignee) ∷ ("worker", c.worker) ∷ ("session", c.session) ∷ []))

unfoldable pub claim : ℕ → Claimant → Exec
claim n c s = on_issue n (claim_issue c) (log "claim" (some n) (claim_body c) s)

-- The response of a claim: its row, and whether it carries a warning.
claim_response : ℕ → Claimant → FakeIssueSurface → Result (Issue × Bool)
claim_response n c s = do issue ← (claim n c s).0; ok (issue, has_dependency_warning issue)

-- The caller's expectation, if there is one.
abbrev pub is_expected : Option String → String → Bool
is_expected none actual = true
is_expected (some expected) actual = actual == expected

unfoldable pub reclaimed : Option String → Issue → Result Issue
reclaimed expected_worker issue =
    if issue.stage == "todo" && is_empty issue.assignee && is_empty issue.worker
    then ok issue
    else do
      guard (issue.stage == "implementing") invalid_transition
      guard (is_expected expected_worker issue.worker) (workflow "race_lost")
      ok (record issue {
        status = "active";
        stage = "todo";
        assignee = "";
        implementer = "";
        worker = "";
      })

unfoldable pub reclaim : ℕ → Option String → Option String → Option String → Exec
reclaim n expected_worker actor reason s = on_issue n (reclaimed expected_worker) (
    log "reclaim" (some n)
      (drop_none
        (("expected_worker", expected_worker) ∷ ("actor", actor) ∷ ("reason", reason) ∷ []))
      s)
