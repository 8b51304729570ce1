-- ===== src/Issues/Server.antt =====
-- testing/issues.py: the server and its operations. An operation on an issue is a check of the
-- row that gives the new row; the call log grows before the check.
pub mod Work
pub mod Review
pub mod Next
pub mod Rows
pub mod Op
pub mod Effects
pub mod Invariant
use issuekit.Prelude.{
  ℕ, ◌+◌, String, Bool, true, false, not, ◌&&◌, ◌||◌, Option, none, some, List, [], ◌∷◌, ◌++◌,
  if◌then◌else◌, ◌==◌, is_empty, is_some, eqb, ltb, Result, ok, err, Error, workflow, guard, ◌>>=◌,
  ◌>>◌, or_empty,
}
use Prim.Native.Nat.{max}
use Prim.Native.String
use issuekit.Prelude.Decimal.{show}
use issuekit.Issues.Row.{
  Issue, Fields, or_default, or_text, is_claimable_status, is_ready_stage, is_open_to,
  matches_target_worker, is_self_review, is_forbidden_self_implement,
}

pub data Value : Type 0 where
  text : String → Value
  flag : Bool → Value
  whole : ℕ → Value

pub record Call : Type 0 where
  pub method : String
  pub number : Option ℕ
  pub body : List (String × Value)

pub record FakeIssueSurface : Type 0 where
  pub issues : List (ℕ × Issue)
  pub next_id : ℕ
  pub calls : List Call
  pub stored_target_worker_override : Option String

-- core.py
unfoldable pub drop_none : List (String × Option String) → List (String × Value)
drop_none [] = []
drop_none ((key, none) ∷ values) = drop_none values
drop_none ((key, some value) ∷ values) = (key, text value) ∷ drop_none values

-- An absent key keeps the old entry.
abbrev or_old : Option String → Option String → Option String
or_old old none = old
or_old old (some v) = some v

-- `_record`
abbrev pub log : String → Option ℕ → List (String × Value) → FakeIssueSurface → FakeIssueSurface
log method number body s = record s {
  calls = s.calls ++ record { method = method; number = number; body = body } ∷ [];
}

unfoldable pub lookup : ℕ → List (ℕ × Issue) → Option Issue
lookup n [] = none
lookup n ((k, issue) ∷ issues) = if eqb k n then some issue else lookup n issues

unfoldable pub store : ℕ → Issue → List (ℕ × Issue) → List (ℕ × Issue)
store n issue [] = (n, issue) ∷ []
store n issue ((k, old) ∷ issues) =
    if eqb k n then (k, issue) ∷ issues else (k, old) ∷ store n issue issues

-- `_find`
unfoldable pub find : ℕ → FakeIssueSurface → Result Issue
find n s = elim (lookup n s.issues) [ none ↦ err (workflow "not_found") | some issue ↦ ok issue ]

abbrev pub save : ℕ → Result Issue → FakeIssueSurface → Result Issue × FakeIssueSurface
save n (err e) s = (err e, s)
save n (ok issue) s = (ok issue, record s { issues = store n issue s.issues })

-- Find the row, check it, and write the row that the check gives.
unfoldable pub on_issue :
    ℕ → (Issue → Result Issue) → FakeIssueSurface → Result Issue × FakeIssueSurface
on_issue n change s = save n (find n s >>= change) s

unfoldable pub get_issue : ℕ → FakeIssueSurface → Result Issue
get_issue = find

abbrev id_body : Option ℕ → List (String × Value)
id_body none = []
id_body (some n) = ("id", whole n) ∷ []

pub fields_body : Fields → Option String → List (String × Value)
fields_body f session =
    id_body f.id
    ++ drop_none (
        ("title", f.title)
        ∷ ("status", f.status)
        ∷ ("priority", f.priority)
        ∷ ("created", f.created)
        ∷ ("completed", f.completed)
        ∷ ("assignee", f.assignee)
        ∷ ("stage", f.stage)
        ∷ ("implementer", f.implementer)
        ∷ ("author", f.author)
        ∷ ("worker", f.worker)
        ∷ ("target_worker", f.target_worker)
        ∷ ("author_session", f.author_session)
        ∷ ("implementer_session", f.implementer_session)
        ∷ ("reviewer_session", f.reviewer_session)
        ∷ ("body", f.body)
        ∷ ("branch", f.branch)
        ∷ ("commit", f.commit)
        ∷ ("dependency_state", f.dependency_state)
        ∷ ("session", session)
        ∷ [])

-- The row of `_store_issue`, with its defaults.
unfoldable pub stored_row : ℕ → Fields → Option String → Issue
stored_row n f session = record {
  id = n;
  title = or_default (String.◌++◌ "Issue #" (show n)) f.title;
  status = or_default "active" f.status;
  priority = or_default "medium" f.priority;
  created = or_default "2026-01-01" f.created;
  completed = or_default "" f.completed;
  assignee = or_default "" f.assignee;
  stage = or_default "todo" f.stage;
  implementer = or_default "" f.implementer;
  author = or_default "" f.author;
  worker = or_default "" f.worker;
  target_worker = or_default "" f.target_worker;
  author_session = or_default (or_empty session) f.author_session;
  implementer_session = or_default "" f.implementer_session;
  reviewer_session = or_default "" f.reviewer_session;
  body = or_default "" f.body;
  branch = f.branch;
  commit = f.commit;
  dependency_state = f.dependency_state;
}

-- The id of a stored row: a new one, or the one that the caller names.
chosen_id : Bool → Option ℕ → ℕ → ℕ
chosen_id allocate none next_id = next_id
chosen_id allocate (some raw_id) next_id = if allocate then next_id else raw_id

unfoldable pub store_issue :
    Bool → Option ℕ → Fields → Option String → FakeIssueSurface → Issue × FakeIssueSurface
unfolding chosen_id
store_issue allocate raw_id f session s =
    let n = chosen_id allocate raw_id s.next_id in
    let issue = stored_row n f session in
    (issue, record s { issues = store n issue s.issues; next_id = max s.next_id (n + 1) })

-- The server may store another target than the one that is sent.
unfoldable pub sent_target : Option String → Option String → Option String
sent_target (some override) target = if is_empty (or_empty target) then target else some override
sent_target none target = target

unfoldable pub create_issue :
    Fields → Option String → FakeIssueSurface → Result Issue × FakeIssueSurface
create_issue f session s =
    let sent = or_old f.session session in
    let f' = record f {
      target_worker = sent_target s.stored_target_worker_override f.target_worker;
    } in
    let (issue, s') =
      store_issue true none f' sent (log "create_issue" none (fields_body f sent) s) in
    (ok issue, s')

abbrev pub or_id : ℕ → Option ℕ → ℕ
or_id old none = old
or_id old (some n) = n

-- `stored.update(issue)`, which takes over an id as well, under the old key. A session and the list depends_on
-- are keys that no operation reads; the row does without them.
unfoldable pub updated : Fields → Issue → Issue
updated f issue = record issue {
  id = or_id issue.id f.id;
  title = or_default issue.title f.title;
  status = or_default issue.status f.status;
  priority = or_default issue.priority f.priority;
  created = or_default issue.created f.created;
  completed = or_default issue.completed f.completed;
  assignee = or_default issue.assignee f.assignee;
  stage = or_default issue.stage f.stage;
  implementer = or_default issue.implementer f.implementer;
  author = or_default issue.author f.author;
  worker = or_default issue.worker f.worker;
  target_worker = or_default issue.target_worker f.target_worker;
  author_session = or_default issue.author_session f.author_session;
  implementer_session = or_default issue.implementer_session f.implementer_session;
  reviewer_session = or_default issue.reviewer_session f.reviewer_session;
  body = or_default issue.body f.body;
  branch = or_old issue.branch f.branch;
  commit = or_old issue.commit f.commit;
  dependency_state = or_old issue.dependency_state f.dependency_state;
}

unfoldable pub update_issue : ℕ → Fields → FakeIssueSurface → Result Issue × FakeIssueSurface
update_issue n f s =
    on_issue n (λ issue. ok (updated f issue))
      (log "update_issue" (some n) (fields_body f f.session) s)
