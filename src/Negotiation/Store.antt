-- ===== src/Negotiation/Store.antt =====
-- negotiation/mock_store.py: the store of negotiation threads, with its file.
pub mod Order
pub mod Ops
pub mod Checks
pub mod Frozen
pub mod Frame
pub mod Invariant
use Prim.Native.String.{compare}
use issuekit.Prelude.{
  ℕ, ◌+◌, String, Bool, true, false, not, ◌&&◌, ◌||◌, Option, none, some, List, [], ◌∷◌, ◌++◌,
  if◌then◌else◌, ltb, eqb, is_empty, Result, ok, err, Error, workflow, guard, ◌>>=◌, ◌>>◌, any,
  ◌==◌, is_some, length,
}
use text.Mathlib.Text.{is_lt}
use issuekit.Prelude.Dict.{get, put, pop}
use issuekit.Prelude.Decimal.{show}
use issuekit.Negotiation.Model.{
  Verdict, ThreadStatus, negotiating, agreed, cancelled, NegotiationEntry, NegotiationIssueRefs,
  new_entry, validate_entry_input, validate_contract, latest_agree_contract, is_negotiating,
  is_agreed,
}

pub record Threads : Type 0 where
  pub threads : List (String × List NegotiationEntry)
  pub statuses : List (String × ThreadStatus)
  pub agreed_contracts : List (String × Option String)
  pub issue_refs : List (String × NegotiationIssueRefs)
  pub next_thread_id : ℕ
  pub next_entry_id : ℕ

-- The object, with what its file holds; `none` if there is no persistence path.
pub record MockNegotiationStore : Type 0 where
  pub now : Threads
  pub open now use *
  pub file : Option Threads

-- What the callers write into an entry.
pub record EntryInput : Type 0 where
  pub side : String
  pub verdict : Verdict
  pub title : String
  pub body : String
  pub origin : String
  pub contract : Option String

abbrev pub Exec : Type 0 → Type 0
Exec A = MockNegotiationStore → Result A × MockNegotiationStore

-- The checks that a method makes before it changes anything.
abbrev pub after_checks : {A B : Type 0} → Result A → (A → Exec B) → Exec B
after_checks (ok a) body s = body a s
after_checks (err e) body s = (err e, s)

-- `_persist`: the file holds what the object holds.
unfoldable pub persist : Threads → MockNegotiationStore → MockNegotiationStore
persist t s = record { now = t; file = elim s.file [ none ↦ none | some old ↦ some t ] }

abbrev pub status_of : Threads → String → Option ThreadStatus
status_of t thread_id = get thread_id t.statuses

-- `self._statuses[thread_id]`; there is a status for every thread.
unfoldable pub ensure_thread : Threads → String → Result (List NegotiationEntry)
ensure_thread t thread_id = elim (get thread_id t.threads) [
  | none ↦ err (workflow "not_found")
  | some entries ↦ ok entries
]

abbrev pub has_status : (ThreadStatus → Bool) → Option ThreadStatus → Bool
has_status test none = false
has_status test (some status) = test status

unfoldable pub ensure_negotiating : Threads → String → Result (Unit {0})
ensure_negotiating t thread_id =
    guard (has_status is_negotiating (status_of t thread_id)) (workflow "invalid_transition")

-- `any(entry.origin == origin for entry in entries)`
unfoldable pub has_origin : String → List NegotiationEntry → Bool
has_origin origin [] = false
has_origin origin (entry ∷ entries) = entry.origin == origin || has_origin origin entries

unfoldable pub ensure_unique_origin : List NegotiationEntry → String → Result (Unit {0})
ensure_unique_origin entries origin =
    guard (not (has_origin origin entries)) (workflow "duplicate_origin")

-- `_make_entry`: the id is taken before the entry is checked.
unfoldable pub make_entry : String → String → ℕ → EntryInput → Result NegotiationEntry
unfolding new_entry
make_entry today thread_id id input = new_entry (record {
  thread_id = thread_id;
  side = input.side;
  verdict = input.verdict;
  contract = input.contract;
  title = input.title;
  body = input.body;
  origin = input.origin;
  created = today;
  id = some id;
})

-- A made entry goes to the end of its thread; if it cannot be made, its id is lost.
unfoldable pub append_made :
    String → List NegotiationEntry → Result NegotiationEntry → Exec NegotiationEntry
append_made thread_id entries (err e) s =
    (err e, record s { now = record s.now { next_entry_id = s.next_entry_id + 1 } })
append_made thread_id entries (ok entry) s = (
  ok entry,
  persist
      (record s.now {
        threads = put thread_id (entries ++ entry ∷ []) s.threads;
        next_entry_id = s.next_entry_id + 1;
      })
      s,
)

unfoldable pub create_made : String → Result NegotiationEntry → Exec NegotiationEntry
create_made thread_id (err e) s = (
  err e,
  record s {
    now = record s.now {
      next_thread_id = s.next_thread_id + 1;
      next_entry_id = s.next_entry_id + 1;
    };
  },
)
create_made thread_id (ok entry) s = (
  ok entry,
  persist
      (record {
        threads = put thread_id (entry ∷ []) s.threads;
        statuses = put thread_id negotiating s.statuses;
        agreed_contracts = put thread_id none s.agreed_contracts;
        issue_refs = pop thread_id s.issue_refs;
        next_thread_id = s.next_thread_id + 1;
        next_entry_id = s.next_entry_id + 1;
      })
      s,
)

unfoldable pub create_checks : EntryInput → Result (Unit {0})
create_checks input = do validate_entry_input input.side; validate_contract input.contract

unfoldable pub create_body : String → EntryInput → Exec NegotiationEntry
create_body today input s =
    let thread_id = show s.next_thread_id in
    create_made thread_id (make_entry today thread_id s.next_entry_id input) s

unfoldable pub create_thread : String → EntryInput → Exec NegotiationEntry
create_thread today input = after_checks (create_checks input) (λ _. create_body today input)

pub append_initial_checks : Threads → String → EntryInput → Result (List NegotiationEntry)
append_initial_checks t thread_id input = do
  entries ← ensure_thread t thread_id
  guard (eqb (length entries) 0) (workflow "invalid_transition")
  validate_entry_input input.side
  validate_contract input.contract
  ok entries

unfoldable pub append_checks : Threads → String → EntryInput → Result (List NegotiationEntry)
append_checks t thread_id input = do
  entries ← ensure_thread t thread_id
  validate_entry_input input.side
  validate_contract input.contract
  ensure_negotiating t thread_id
  ensure_unique_origin entries input.origin
  ok entries

unfoldable pub append_body :
    String → String → EntryInput → List NegotiationEntry → Exec NegotiationEntry
append_body today thread_id input entries s =
    append_made thread_id entries (make_entry today thread_id s.next_entry_id input) s

pub append_initial_entry : String → String → EntryInput → Exec NegotiationEntry
append_initial_entry today thread_id input s =
    after_checks (append_initial_checks s.now thread_id input) (append_body today thread_id input) s

unfoldable pub append_entry : String → String → EntryInput → Exec NegotiationEntry
append_entry today thread_id input s =
    after_checks (append_checks s.now thread_id input) (append_body today thread_id input) s

-- `agreed_contract or latest_agree_contract(...)`
abbrev pub or_latest : Option String → List NegotiationEntry → Option String
or_latest none entries = latest_agree_contract entries
or_latest (some c) entries = if is_empty c then latest_agree_contract entries else some c

unfoldable pub set_status_checks :
    Threads → String → ThreadStatus → Option String → Result (List NegotiationEntry)
set_status_checks t thread_id next contract = do
  entries ← ensure_thread t thread_id
  validate_contract contract
  guard (has_status is_negotiating (status_of t thread_id)) (workflow "invalid_transition")
  guard (is_agreed next || not (is_some contract)) (workflow "invalid_transition")
  ok entries

unfoldable pub set_status_body :
    String → ThreadStatus → Option String → List NegotiationEntry → Exec (Unit {0})
set_status_body thread_id next contract entries s = (
  ok tt,
  persist
      (record s.now {
        statuses = put thread_id next s.statuses;
        agreed_contracts =
            if is_agreed next
            then put thread_id (or_latest contract entries) s.agreed_contracts
            else s.agreed_contracts;
      })
      s,
)

unfoldable pub set_status : String → ThreadStatus → Option String → Exec (Unit {0})
set_status thread_id next contract s =
    after_checks (set_status_checks s.now thread_id next contract)
      (set_status_body thread_id next contract) s

unfoldable pub get_status : String → MockNegotiationStore → Result ThreadStatus
get_status thread_id s = do
  ensure_thread s.now thread_id
  elim (status_of s.now thread_id) [ none ↦ err Error.lookup_error | some status ↦ ok status ]

-- `dict.get` of a dict whose values may be None
unfoldable pub agreed_contract_of : Threads → String → Option String
agreed_contract_of t thread_id = elim (get thread_id t.agreed_contracts) [
  | none ↦ none
  | some contract ↦ contract
]

unfoldable pub get_agreed_contract : String → MockNegotiationStore → Result (Option String)
get_agreed_contract thread_id s = do
  ensure_thread s.now thread_id
  ok (agreed_contract_of s.now thread_id)

unfoldable pub get_issue_refs : String → MockNegotiationStore → Result (Option NegotiationIssueRefs)
get_issue_refs thread_id s = do ensure_thread s.now thread_id; ok (get thread_id s.issue_refs)

abbrev refs_eq : NegotiationIssueRefs → NegotiationIssueRefs → Bool
refs_eq a b =
    a.backend_issue_ref == b.backend_issue_ref && a.frontend_issue_ref == b.frontend_issue_ref

abbrev no_other_refs : Option NegotiationIssueRefs → NegotiationIssueRefs → Bool
no_other_refs none refs = true
no_other_refs (some old) refs = refs_eq old refs

unfoldable pub set_refs_checks : Threads → String → NegotiationIssueRefs → Result (Unit {0})
set_refs_checks t thread_id refs = do
  ensure_thread t thread_id
  guard (has_status is_agreed (status_of t thread_id)) (workflow "invalid_transition")
  guard (no_other_refs (get thread_id t.issue_refs) refs) (workflow "invalid_transition")

unfoldable pub set_refs_body : String → NegotiationIssueRefs → Exec (Unit {0})
set_refs_body thread_id refs s =
    (ok tt, persist (record s.now { issue_refs = put thread_id refs s.issue_refs }) s)

unfoldable pub set_issue_refs : String → NegotiationIssueRefs → Exec (Unit {0})
set_issue_refs thread_id refs s =
    after_checks (set_refs_checks s.now thread_id refs) (λ _. set_refs_body thread_id refs) s

abbrev settle_body : Exec (Unit {0})
settle_body s = (ok tt, s)

unfoldable pub settle_thread_members : String → Exec (Unit {0})
settle_thread_members thread_id s =
    after_checks (ensure_thread s.now thread_id) (λ _. settle_body) s

unfoldable pub cancel_checks : Threads → String → Result (Unit {0})
cancel_checks t thread_id = do
  ensure_thread t thread_id
  guard (not (is_some (get thread_id t.issue_refs))) (workflow "invalid_transition")
  guard (has_status is_negotiating (status_of t thread_id)) (workflow "invalid_transition")

unfoldable pub cancel_body : String → Exec (Unit {0})
cancel_body thread_id s =
    (ok tt, persist (record s.now { statuses = put thread_id cancelled s.statuses }) s)

unfoldable pub cancel_thread : String → Exec (Unit {0})
cancel_thread thread_id s =
    after_checks (cancel_checks s.now thread_id) (λ _. cancel_body thread_id) s
