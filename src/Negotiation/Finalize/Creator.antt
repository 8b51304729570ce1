-- ===== src/Negotiation/Finalize/Creator.antt =====
-- negotiation/finalize.py: `MockIssueCreator`, which keeps the issues in memory.
use Prim.Native.String
use issuekit.Prelude.{ℕ, ◌+◌, String, none, some, List, Result, ok, err, workflow}
use issuekit.Prelude.Dict.{get, put}
use issuekit.Prelude.Decimal.{show}
use issuekit.Negotiation.Finalize.{Issue, IssueDraft, IssueCreator}

pub record MockIssueCreator : Type 0 where
  pub next_ids : List (String × ℕ)
  pub issues : List (String × Issue)

unfoldable pub issue_ref : String → ℕ → String
issue_ref project id = String.◌++◌ project (String.◌++◌ "#" (show id))

-- `self._next_ids.get(project, 1)`
unfoldable pub next_id : String → MockIssueCreator → ℕ
next_id project c = elim (get project c.next_ids) [ none ↦ 1 | some id ↦ id ]

unfoldable pub new_issue : IssueDraft → ℕ → Issue
new_issue draft id = record {
  id = some id;
  ref = issue_ref draft.project id;
  title = draft.title;
  issue_status = "active";
  created = "";
  completed = "";
  priority = draft.priority;
  assignee = "";
  stage = "todo";
  implementer = "";
  author = draft.author;
  body = draft.body;
  depends_on = draft.depends_on;
}

unfoldable pub create_issue : IssueDraft → MockIssueCreator → Result Issue × MockIssueCreator
create_issue draft c =
    let id = next_id draft.project c in
    let issue = new_issue draft id in
    (
      ok issue,
      record {
        next_ids = put draft.project (id + 1) c.next_ids;
        issues = put issue.ref issue c.issues;
      },
    )

unfoldable pub update_issue_body :
    String → ℕ → String → MockIssueCreator → Result Issue × MockIssueCreator
update_issue_body project id body c =
    let ref = issue_ref project id in
    elim (get ref c.issues) [
      | none ↦ (err (workflow "not_found"), c)
      | some issue ↦
          let updated = record issue { body = body } in
          (ok updated, record c { issues = put ref updated c.issues })
    ]

abbrev pub mock_creator : IssueCreator MockIssueCreator
mock_creator = record { create_issue = create_issue; update_issue_body = update_issue_body }
