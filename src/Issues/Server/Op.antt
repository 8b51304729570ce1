-- ===== src/Issues/Server/Op.antt =====
-- The operations of the server as one type, and what each of them may change.
use issuekit.Prelude.{
  ℕ, String, ◌≡◌, Bool, false, Option, none, some, List, [], ◌∷◌, Result, raised, ◌+◌,
}
use issuekit.Issues.Row.{Issue, Fields}
use issuekit.Issues.Server.{FakeIssueSurface, create_issue, update_issue, lookup, store}
use issuekit.Issues.Server.Work.{Claimant}
use issuekit.Issues.Server.Work
use issuekit.Issues.Server.Review.{Submission, ChangeRequest, Approval}
use issuekit.Issues.Server.Review
use issuekit.Issues.Server.Next

pub data Op : Type 0 where
  create : Fields → Option String → Op
  update : ℕ → Fields → Op
  plan : ℕ → String → Option String → Option String → Op
  claim : ℕ → Claimant → Op
  claim_next : Claimant → Option String → Op
  reclaim readdress : ℕ → Option String → Option String → Option String → Op
  dispatch : ℕ → String → Option String → Option String → Op
  submit : ℕ → Submission → Op
  request_changes : ℕ → ChangeRequest → Op
  approve : ℕ → Approval → Op
  complete : ℕ → String → String → Bool → Option String → Option String → Op

-- Whether the call raised, and the server behind it.
abbrev pub outcome : {A : Type 0} → Result A × FakeIssueSurface → Bool × FakeIssueSurface
outcome (r, s) = (raised r, s)

unfoldable pub run_op : Op → FakeIssueSurface → Bool × FakeIssueSurface
run_op (create f session) s = outcome (create_issue f session s)
run_op (update n f) s = outcome (update_issue n f s)
run_op (plan n stage actor remark) s = outcome (Work.plan n stage actor remark s)
run_op (claim n c) s = outcome (Work.claim n c s)
run_op (claim_next c priority) s = outcome (Next.claim_next c priority s)
run_op (reclaim n worker actor reason) s = outcome (Work.reclaim n worker actor reason s)
run_op (readdress n worker actor reason) s = outcome (Review.readdress n worker actor reason s)
run_op (dispatch n worker assignee stage) s = outcome (Review.dispatch n worker assignee stage s)
run_op (submit n x) s = outcome (Review.submit n x s)
run_op (request_changes n x) s = outcome (Review.request_changes n x s)
run_op (approve n x) s = outcome (Review.approve n x s)
run_op (complete n summary verification force model effort) s =
    outcome (Review.complete n summary verification force model effort s)

unfoldable pub run_ops : List Op → FakeIssueSurface → FakeIssueSurface
run_ops [] s = s
run_ops (op ∷ ops) s = run_ops ops (run_op op s).1

-- The rows and the next id: what a call leaves besides its log.
pub record SameRows (s s' : FakeIssueSurface) : Type 0 where
  pub issues : s'.issues ≡ s.issues
  pub next_id : s'.next_id ≡ s.next_id

-- An update that sends an id sends the one of its issue.
abbrev pub IsSameId : ℕ → Option ℕ → Type 0
IsSameId n none = Unit
IsSameId n (some m) = m ≡ n

abbrev pub KeepsId : Op → Type 0
KeepsId (Op.update n f) = IsSameId n f.id
KeepsId _ = Unit

-- What a call may do: nothing, or write the row of one issue and keep its id if the call is of a kind `K`
-- that does, or store one row under the next id.
pub data Effect (K : Type 0) (s : FakeIssueSurface) : Bool × FakeIssueSurface → Type 0 where
  unchanged : {b : Bool} {s' : FakeIssueSurface} → SameRows s s' → Effect K s (b, s')
  wrote :
      {s' : FakeIssueSurface} (n : ℕ) (old new : Issue)
      → lookup n s.issues ≡ some old
      → (K → new.id ≡ old.id)
      → s'.issues ≡ store n new s.issues
      → s'.next_id ≡ s.next_id
      → Effect K s (false, s')
  created :
      {s' : FakeIssueSurface} (new : Issue)
      → new.id ≡ s.next_id
      → s'.issues ≡ store s.next_id new s.issues
      → s'.next_id ≡ s.next_id + 1
      → Effect K s (false, s')
