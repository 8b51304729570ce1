-- ===== src/Requests/State.antt =====
-- commands/request/state.py: the requests of a checkout, as the command writes them to its file. The
-- times of changes are left out.
use Prim.Native.String
use issuekit.Prelude.{
  ℕ, suc, ◌+◌, String, Bool, true, false, not, ◌&&◌, ◌||◌, Option, none, some, List, [], ◌∷◌, ◌++◌,
  if◌then◌else◌, ◌==◌, is_empty, or_empty, eqb, ltb, leb, select, Result, ok, err, proposal_error,
  ◌>>=◌,
}
use issuekit.Prelude.Text.{strip, join}
use issuekit.Prelude.Decimal.{show}
use issuekit.Agents.Router.{RouteTarget, placeholder_index}

pub record Qa : Type 0 where
  pub question : String
  pub answer : String

-- A saved target; a key that is not there is the empty text or the empty list.
pub record Target : Type 0 where
  pub project : String
  pub title : String
  pub body : String
  pub blocking : Bool
  pub depends_on : List String
  pub proposal_ref : String
  pub dependency_ref : String
  pub proposal_id : String
  pub status : String
  pub clarifications : List Qa

pub record Request : Type 0 where
  pub original_text : String
  pub qa : List Qa
  pub targets : List Target
  pub decision : String
  pub pending_question : String
  pub reason : String

-- The requests by their ids.
abbrev pub Requests : Type 0
Requests = List (ℕ × Request)

unfoldable pub get_request : ℕ → Requests → Option Request
get_request n [] = none
get_request n ((k, r) ∷ state) = if eqb k n then some r else get_request n state

-- `state[n] = r`
unfoldable pub put_request : ℕ → Request → Requests → Requests
put_request n r [] = (n, r) ∷ []
put_request n r ((k, old) ∷ state) =
    if eqb k n then (k, r) ∷ state else (k, old) ∷ put_request n r state

abbrev pub is_sent : Target → Bool
is_sent target = not (is_empty target.proposal_ref)

abbrev pub all_sent : List Target → Bool
all_sent [] = true
all_sent (target ∷ targets) = is_sent target && all_sent targets

abbrev has_targets : List Target → Bool
has_targets [] = false
has_targets (target ∷ targets) = true

unfoldable pub is_complete : Request → Bool
is_complete r =
    if r.decision == "reject"
    then true
    else if not (r.decision == "route")
    then false
    else has_targets r.targets && all_sent r.targets

-- What the search looks for: an open request of this text.
abbrev pub is_open_for : String → Request → Bool
is_open_for text r = r.original_text == text && not (is_complete r)

-- The loop over the requests in the order of their ids: the open one with the least id.
unfoldable pub find_open : String → Requests → Option (ℕ × Request)
find_open text [] = none
find_open text ((n, r) ∷ state) =
    let rest = find_open text state in
    if not (is_open_for text r) then rest else elim rest [
      | none ↦ some (n, r)
      | some (m, q) ↦ if ltb m n then some (m, q) else some (n, r)
    ]

unfoldable pub greatest_id : Requests → ℕ
greatest_id [] = 0
greatest_id ((n, r) ∷ state) = let rest = greatest_id state in if leb rest n then n else rest

unfoldable pub new_request : String → Request
new_request text = record {
  original_text = text;
  qa = [];
  targets = [];
  decision = "";
  pending_question = "";
  reason = "";
}

-- The id and the request, and the requests with it.
unfoldable pub find_or_create_request : Requests → String → ℕ × Request × Requests
find_or_create_request state text = elim (find_open text state) [
  | some (n, r) ↦ (n, r, state)
  | none ↦
      let n = greatest_id state + 1 in let r = new_request text in (n, r, put_request n r state)
]

-- `RouteTarget.to_dict` with its defaults
unfoldable pub target_state : RouteTarget → Target
target_state target = record {
  project = target.project;
  title = target.title;
  body = target.body;
  blocking = target.blocking;
  depends_on = target.depends_on;
  proposal_ref = "";
  dependency_ref = "";
  proposal_id = "";
  status = "";
  clarifications = [];
}

-- The references of the proposals sent, by the index of their target.
abbrev pub Refs : Type 0
Refs = List (ℕ × String)

unfoldable pub ref_at : ℕ → Refs → Option String
ref_at n [] = none
ref_at n ((k, ref) ∷ refs) = if eqb k n then some ref else ref_at n refs

abbrev found_ref : Option String → Result String
found_ref none = err proposal_error
found_ref (some ref) = ok ref

unfoldable pub resolve_one : Refs → String → Result String
resolve_one refs ref = elim (placeholder_index ref) [
  | none ↦ ok ref
  | some n ↦ found_ref (ref_at n refs)
]

unfoldable pub resolve_depends_on : List String → Refs → Result (List String)
resolve_depends_on [] refs = ok []
resolve_depends_on (ref ∷ depends_on) refs = resolve_one refs ref >>= λ first.
    resolve_depends_on depends_on refs >>= λ rest. ok (first ∷ rest)

abbrev pub or_text : String → String → String
or_text a b = if is_empty a then b else a

-- The references of the targets, from the one with this index on.
unfoldable pub refs_from : ℕ → List Target → Refs
refs_from n [] = []
refs_from n (target ∷ targets) =
    let rest = refs_from (suc n) targets in
    let ref = strip (or_text target.dependency_ref target.proposal_ref) in
    if is_empty ref then rest else (n, ref) ∷ rest

unfoldable pub refs_by_target_index : List Target → Refs
refs_by_target_index targets = refs_from 0 targets

unfoldable pub target_depends_on : Target → List String
target_depends_on target = select (λ ref. not (is_empty (strip ref))) target.depends_on

-- The pairs whose texts are both there.
unfoldable pub qa_pairs : List Qa → List Qa
qa_pairs [] = []
qa_pairs (qa ∷ others) =
    let rest = qa_pairs others in
    if is_empty (strip qa.question) || is_empty (strip qa.answer)
    then rest
    else record { question = strip qa.question; answer = strip qa.answer } ∷ rest

unfoldable pub clarification_lines : ℕ → List Qa → List String
clarification_lines n [] = []
clarification_lines n (qa ∷ others) =
    ""
    ∷ String.◌++◌ "### Round " (show n)
    ∷ ""
    ∷ "Question:"
    ∷ ""
    ∷ qa.question
    ∷ ""
    ∷ "Answer:"
    ∷ ""
    ∷ qa.answer
    ∷ clarification_lines (suc n) others

abbrev clarification_section : List Qa → List String
clarification_section [] = []
clarification_section (qa ∷ others) =
    strip (join "\n" ("## Clarifications" ∷ clarification_lines 1 (qa ∷ others))) ∷ []

unfoldable pub compose_amended_body : String → List Qa → String → String
compose_amended_body original_body clarifications supersedes =
    let sections =
      strip original_body
      ∷ (clarification_section clarifications ++ (String.◌++◌ "Supersedes: " supersedes ∷ [])) in
    strip (join "\n\n" (select (λ section. not (is_empty section)) sections))

-- The short head of the checkout, if Git knows it.
abbrev pub or_unknown : Option String → String
or_unknown head = if is_empty (or_empty head) then "unknown" else or_empty head

abbrev pub words : List String → String
words parts = join "" parts

unfoldable pub routed_origin : String → Option String → ℕ → ℕ → String → String
routed_origin project head request_id target_index target_project = words (
    project
    ∷ "#request-"
    ∷ show request_id
    ∷ "-target-"
    ∷ show target_index
    ∷ "-"
    ∷ target_project
    ∷ "@"
    ∷ or_unknown head
    ∷ [])
