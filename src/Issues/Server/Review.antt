-- ===== src/Issues/Server/Review.antt =====
-- testing/issues.py: directing, submitting, reviewing and completing an issue.
use issuekit.Prelude.{
  ℕ, String, Bool, not, ◌||◌, Option, none, some, [], ◌∷◌, ◌==◌, is_empty, Result, ok, workflow,
  guard, ◌>>◌, or_empty,
}
use issuekit.Issues.Row.{Issue, or_default, or_text, is_self_review}
use issuekit.Issues.Server.{flag, text, drop_none, log, on_issue}
use issuekit.Issues.Server.Work.{Exec, invalid_transition, is_expected}

unfoldable pub readdressed : Option String → Issue → Result Issue
readdressed expected_target_worker issue = do
  guard (not (is_empty issue.target_worker)) invalid_transition
  guard (is_expected expected_target_worker issue.target_worker) (workflow "race_lost")
  ok (record issue { target_worker = "" })

unfoldable pub readdress : ℕ → Option String → Option String → Option String → Exec
readdress n expected_target_worker actor reason s =
    on_issue n (readdressed expected_target_worker) (
      log "readdress" (some n)
        (drop_none (
          ("expected_target_worker", expected_target_worker)
          ∷ ("actor", actor)
          ∷ ("reason", reason)
          ∷ []))
        s)

abbrev pub is_dispatchable : String → Bool
is_dispatchable stage = stage == "todo" || stage == "planned" || stage == "changes_requested"

unfoldable pub dispatched : String → Option String → Option String → Issue → Result Issue
dispatched target_worker assignee stage issue = do
  guard (is_dispatchable (or_text issue.stage "todo")) invalid_transition
  ok (record issue {
    target_worker = target_worker;
    assignee = or_default issue.assignee assignee;
    stage = or_default issue.stage stage;
  })

unfoldable pub dispatch : ℕ → String → Option String → Option String → Exec
dispatch n target_worker assignee stage s =
    on_issue n
      (dispatched (or_default target_worker s.stored_target_worker_override) assignee stage)
      (log "dispatch" (some n)
        (drop_none
          (("target_worker", some target_worker) ∷ ("assignee", assignee) ∷ ("stage", stage) ∷ []))
        s)

pub record Submission : Type 0 where
  pub summary : String
  pub branch : Option String
  pub commit : Option String
  pub reviewer : Option String
  pub session : Option String
  pub agent_model : Option String
  pub agent_reasoning_effort : Option String

-- An absent key keeps the old entry.
abbrev or_old : Option String → Option String → Option String
or_old old none = old
or_old old (some v) = some v

unfoldable pub submitted : Submission → Issue → Result Issue
unfolding or_old
submitted x issue = do
  guard (is_empty (or_empty x.reviewer) || not (issue.implementer == or_empty x.reviewer))
      invalid_transition
  ok (record issue {
    implementer_session = or_default issue.implementer_session x.session;
    stage = "review";
    assignee = or_empty x.reviewer;
    branch = or_old issue.branch x.branch;
    commit = or_old issue.commit x.commit;
  })

unfoldable pub submit : ℕ → Submission → Exec
submit n x s = on_issue n (submitted x) (
    log "submit" (some n)
      (drop_none (
        ("summary", some x.summary)
        ∷ ("branch", x.branch)
        ∷ ("commit", x.commit)
        ∷ ("reviewer", x.reviewer)
        ∷ ("session", x.session)
        ∷ ("agent_model", x.agent_model)
        ∷ ("agent_reasoning_effort", x.agent_reasoning_effort)
        ∷ []))
      s)

pub record ChangeRequest : Type 0 where
  pub notes : String
  pub reviewer : Option String
  pub assignee : Option String
  pub worker : Option String
  pub session : Option String
  pub agent_model : Option String
  pub agent_reasoning_effort : Option String

unfoldable pub returned : ChangeRequest → Issue → Result Issue
returned x issue = ok (record issue {
  reviewer_session = or_default issue.reviewer_session x.session;
  stage = "changes_requested";
  assignee = or_text (or_empty x.assignee) (or_text issue.implementer "codex");
})

unfoldable pub request_changes : ℕ → ChangeRequest → Exec
request_changes n x s = on_issue n (returned x) (
    log "request_changes" (some n)
      (drop_none (
        ("notes", some x.notes)
        ∷ ("reviewer", x.reviewer)
        ∷ ("assignee", x.assignee)
        ∷ ("worker", x.worker)
        ∷ ("session", x.session)
        ∷ ("agent_model", x.agent_model)
        ∷ ("agent_reasoning_effort", x.agent_reasoning_effort)
        ∷ []))
      s)

pub record Approval : Type 0 where
  pub summary : String
  pub verification : String
  pub reviewer : String
  pub worker : Option String
  pub session : Option String
  pub agent_model : Option String
  pub agent_reasoning_effort : Option String

unfoldable pub approved : Approval → Issue → Result Issue
approved x issue = do
  guard (issue.stage == "review") invalid_transition
  guard (not (is_self_review issue x.reviewer x.worker)) invalid_transition
  ok (record issue {
    reviewer_session = or_default issue.reviewer_session x.session;
    status = "completed";
    stage = "done";
    assignee = "";
  })

unfoldable pub approve : ℕ → Approval → Exec
approve n x s = on_issue n (approved x) (
    log "approve" (some n)
      (drop_none (
        ("summary", some x.summary)
        ∷ ("verification", some x.verification)
        ∷ ("reviewer", some x.reviewer)
        ∷ ("worker", x.worker)
        ∷ ("session", x.session)
        ∷ ("agent_model", x.agent_model)
        ∷ ("agent_reasoning_effort", x.agent_reasoning_effort)
        ∷ []))
      s)

unfoldable pub completed : Issue → Result Issue
completed issue = ok (record issue { status = "completed"; stage = "done"; assignee = "" })

unfoldable pub complete : ℕ → String → String → Bool → Option String → Option String → Exec
complete n summary verification force agent_model agent_reasoning_effort s = on_issue n completed (
    log "complete" (some n)
      (("summary", text summary)
        ∷ ("verification", text verification)
        ∷ ("force", flag force)
        ∷ drop_none (
            ("agent_model", agent_model) ∷ ("agent_reasoning_effort", agent_reasoning_effort) ∷ []))
      s)
