-- ===== src/Negotiation/Model.antt =====
-- negotiation/model.py: entries, statuses and their validation.
use Prim.Native.String.{count}
use issuekit.Prelude.{
  ℕ, String, Bool, true, false, not, ◌&&◌, Option, none, some, List, [], ◌∷◌, if◌then◌else◌, ltb,
  is_empty, Result, ok, workflow, value_error, guard, ◌>>◌,
}
use issuekit.Prelude.Text.{strip}
use issuekit.Core.Token.{is_valid_workflow_token}

pub data Verdict : Type 0 where
  propose counter agree blocked : Verdict

pub data ThreadStatus : Type 0 where
  negotiating agreed blocked cancelled : ThreadStatus

pub record NegotiationEntry : Type 0 where
  pub thread_id : String
  pub side : String
  pub verdict : Verdict
  pub contract : Option String
  pub title : String
  pub body : String
  pub origin : String
  pub created : String
  pub id : Option ℕ

pub record NegotiationIssueRefs : Type 0 where
  pub backend_issue_ref : String
  pub frontend_issue_ref : String

abbrev pub max_contract_length : ℕ
max_contract_length = 100000

abbrev pub is_agree : Verdict → Bool
is_agree Verdict.agree = true
is_agree _ = false

abbrev pub is_blocked : Verdict → Bool
is_blocked Verdict.blocked = true
is_blocked _ = false

abbrev pub is_negotiating : ThreadStatus → Bool
is_negotiating negotiating = true
is_negotiating _ = false

abbrev pub is_agreed : ThreadStatus → Bool
is_agreed agreed = true
is_agreed _ = false

-- `__post_init__`
unfoldable pub new_entry : NegotiationEntry → Result NegotiationEntry
new_entry e = do
  guard (not (is_empty e.thread_id)) value_error
  guard (not (is_empty e.side) && is_valid_workflow_token e.side) value_error
  ok e

unfoldable pub new_issue_refs : String → String → Result NegotiationIssueRefs
new_issue_refs backend frontend = do
  guard (not (is_empty (strip backend))) value_error
  guard (not (is_empty (strip frontend))) value_error
  ok (record { backend_issue_ref = backend; frontend_issue_ref = frontend })

-- The verdict is one of the four already.
unfoldable pub validate_entry_input : String → Result (Unit {0})
validate_entry_input side = guard (not (is_empty side) && is_valid_workflow_token side) value_error

unfoldable pub validate_contract : Option String → Result (Unit {0})
validate_contract none = ok tt
validate_contract (some contract) =
    guard (not (ltb max_contract_length (count contract))) (workflow "invalid_value")

-- `for entry in reversed(entries)`: the later of two hits is the one found in the rest.
unfoldable pub latest_agree_contract : List NegotiationEntry → Option String
latest_agree_contract [] = none
latest_agree_contract (entry ∷ later) = elim (latest_agree_contract later) [
  | some contract ↦ some contract
  | none ↦ if is_agree entry.verdict then entry.contract else none
]
