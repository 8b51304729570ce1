-- ===== src/Negotiation/Finalize.antt =====
-- negotiation/finalize.py: the issues that an agreed negotiation opens. Whoever creates issues is
-- an interface with a state of its own; Finalize/Creator has the one that is kept in memory.
pub mod Creator
pub mod Final
pub mod Linked
mod Tests
use Prim.Native.String
use issuekit.Prelude.{
  ℕ, String, Bool, true, false, Option, none, some, List, [], ◌∷◌, if◌then◌else◌, ◌==◌, is_empty,
  Result, ok, err, Error, workflow, lookup_error, guard, or_empty,
}
use issuekit.Prelude.Decimal.{show}
use issuekit.Prelude.Text.{strip, cut}
use issuekit.Negotiation.Model.{
  ThreadStatus, NegotiationEntry, NegotiationIssueRefs, is_agreed, is_negotiating,
}
use issuekit.Negotiation.Thread.{
  Outcome, negotiating, agreed, blocked, escalate, evaluate_convergence, latest_contract,
  other_side, require_supported_thread, provider_side, consumer_side,
}
use issuekit.Negotiation.Store.{
  MockNegotiationStore, Exec, set_status, get_status, get_issue_refs, get_agreed_contract,
  settle_thread_members, set_issue_refs,
}
use issuekit.Negotiation.Store.Order.{get_thread}
use issuekit.Negotiation.Engine.{bind, pure, raise, read}
use issuekit.Negotiation.Prompts.{provider_issue_body, consumer_issue_body}

-- core.py: an issue; its metadata repeat the title and the dependencies.
pub record Issue : Type 0 where
  pub id : Option ℕ
  pub ref : String
  pub title : String
  pub issue_status : String
  pub created : String
  pub completed : String
  pub priority : String
  pub assignee : String
  pub stage : String
  pub implementer : String
  pub author : String
  pub body : String
  pub depends_on : List String

-- What `create_issue` is called with.
pub record IssueDraft : Type 0 where
  pub project : String
  pub title : String
  pub body : String
  pub priority : String
  pub author : String
  pub depends_on : List String

-- The protocol `IssueCreator`, over the creator's state.
pub record IssueCreator (C : Type 0) : Type 0 where
  pub create_issue : IssueDraft → C → Result Issue × C
  pub update_issue_body : String → ℕ → String → C → Result Issue × C

pub record NegotiationFinalizationResult : Type 0 where
  pub thread_id : String
  pub backend_issue_ref : String
  pub frontend_issue_ref : String
  pub created : Bool

-- What a finalization is called with, besides the thread, the store and the creator.
pub record Request : Type 0 where
  pub sha256 : String → String
  pub project : String
  pub to_project : String
  pub author_agent : String
  pub priority : String

-- thread.py; `cut` splits at the first `@`.
unfoldable pub origin_issue_ref_from_thread : List NegotiationEntry → Option String
origin_issue_ref_from_thread [] = none
origin_issue_ref_from_thread (first ∷ thread) =
    let origin = strip (elim (cut b'@' first.origin) [ none ↦ first.origin | some (a, b) ↦ a ]) in
    if is_empty origin then none else some origin

-- The status of a negotiating thread that has converged is caught up with.
unfoldable pub settle_status : String → List NegotiationEntry → Outcome → Exec (Unit {0})
settle_status k thread negotiating = pure tt
settle_status k thread agreed = set_status k ThreadStatus.agreed (latest_contract thread)
settle_status k thread blocked =
    bind (set_status k ThreadStatus.blocked none) (λ _. settle_thread_members k)
settle_status k thread escalate = pure tt

unfoldable pub current_status :
    (String → String) → String → List NegotiationEntry → ThreadStatus → Exec ThreadStatus
current_status sha256 k thread status =
    if is_negotiating status
    then bind (settle_status k thread (evaluate_convergence sha256 thread))
        (λ _. read (get_status k))
    else pure status

unfoldable pub require_agreed : List NegotiationEntry → ThreadStatus → Exec (List NegotiationEntry)
require_agreed thread status =
    if is_agreed status then pure thread else raise (workflow "invalid_transition")

unfoldable pub require_supported :
    (String → String) → String → ThreadStatus → List NegotiationEntry → Exec (List NegotiationEntry)
require_supported sha256 k status thread =
    bind (read (λ _. require_supported_thread thread))
      (λ _. bind (current_status sha256 k thread status) (require_agreed thread))

unfoldable pub require_finalizable : (String → String) → String → Exec (List NegotiationEntry)
require_finalizable sha256 k =
    bind (read (get_status k))
      (λ status. bind (read (get_thread k)) (require_supported sha256 k status))

-- `agreed_contract or latest_contract`, which is to be a text
unfoldable pub contract_of : Option String → List NegotiationEntry → Result String
contract_of none thread = elim (latest_contract thread) [
  | none ↦ err (workflow "invalid_transition")
  | some contract ↦ ok contract
]
contract_of (some contract) thread =
    if is_empty contract
    then elim (latest_contract thread) [
      | none ↦ err (workflow "invalid_transition")
      | some latest ↦ ok latest
    ]
    else ok contract

-- The project of a side, when `initiator` opened the thread.
unfoldable pub project_of : Request → String → String → String
project_of r initiator side = if side == initiator then r.project else r.to_project

unfoldable pub require_issue_id : Issue → Result ℕ
require_issue_id issue = elim issue.id [
  | none ↦ err (workflow "invalid_response")
  | some id ↦ ok id
]

unfoldable pub provider_draft : Request → String → String → Option String → String → IssueDraft
provider_draft r k initiator origin contract = record {
  project = project_of r initiator provider_side;
  title = String.◌++◌ "Implement agreed contract from negotiation " k;
  body = provider_issue_body k origin "pending" contract;
  priority = r.priority;
  author = r.author_agent;
  depends_on = [];
}

unfoldable pub consumer_draft :
    Request → String → String → Option String → String → Issue → ℕ → IssueDraft
consumer_draft r k initiator origin contract provider id = record {
  project = project_of r initiator consumer_side;
  title = String.◌++◌ "Integrate agreed contract from negotiation " k;
  body = consumer_issue_body k origin provider.ref contract;
  priority = r.priority;
  author = r.author_agent;
  depends_on =
      String.◌++◌ (project_of r initiator provider_side) (String.◌++◌ "#issue:" (show id)) ∷ [];
}

module _ {C : Type 0} (creator : IssueCreator C) (r : Request) (k : String) where
  -- The body of the provider's issue gets the reference of the consumer's. That neither reference is blank is
  -- left to the creator; the constructor of the pair would raise a ValueError.
  unfoldable pub link :
      String → Option String → String → Issue → ℕ → Issue → C → Result NegotiationIssueRefs × C
  link initiator origin contract provider id consumer c =
      let (result, c') =
        creator.update_issue_body (project_of r initiator provider_side) id
          (provider_issue_body k origin consumer.ref contract) c in
      elim result [
        | err e ↦ (err e, c')
        | ok _ ↦ (
          ok (record { backend_issue_ref = provider.ref; frontend_issue_ref = consumer.ref }),
          c',
        )
      ]

  unfoldable pub create_consumer :
      String → Option String → String → Issue → ℕ → C → Result NegotiationIssueRefs × C
  create_consumer initiator origin contract provider id c =
      let (result, c') =
        creator.create_issue (consumer_draft r k initiator origin contract provider id) c in
      elim result [
        | err e ↦ (err e, c')
        | ok consumer ↦ link initiator origin contract provider id consumer c'
      ]

  unfoldable pub create_provider :
      String → Option String → String → C → Result NegotiationIssueRefs × C
  create_provider initiator origin contract c =
      let (result, c') = creator.create_issue (provider_draft r k initiator origin contract) c in
      elim result [
        | err e ↦ (err e, c')
        | ok provider ↦ elim (require_issue_id provider) [
          | err e ↦ (err e, c')
          | ok id ↦ create_consumer initiator origin contract provider id c'
        ]
      ]

  -- `_create_issue_pair`: `thread[0].side` opened the thread.
  unfoldable pub create_issue_pair :
      List NegotiationEntry → String → C → Result NegotiationIssueRefs × C
  create_issue_pair [] contract c = (err lookup_error, c)
  create_issue_pair (first ∷ thread) contract c = elim (other_side first.side) [
    | err e ↦ (err e, c)
    | ok counterpart ↦
        create_provider first.side (origin_issue_ref_from_thread (first ∷ thread)) contract c
  ]

  unfoldable pub finalization_result : NegotiationIssueRefs → Bool → NegotiationFinalizationResult
  finalization_result refs created = record {
    thread_id = k;
    backend_issue_ref = refs.backend_issue_ref;
    frontend_issue_ref = refs.frontend_issue_ref;
    created = created;
  }

  -- `_record_issue_refs`, and the result
  unfoldable pub record_issue_refs : NegotiationIssueRefs → Exec NegotiationFinalizationResult
  record_issue_refs refs =
      bind (set_issue_refs k refs)
        (λ _. bind (settle_thread_members k) (λ _. pure (finalization_result refs true)))

  abbrev pub recorded :
      Result NegotiationIssueRefs × C
      → MockNegotiationStore
      → Result NegotiationFinalizationResult × MockNegotiationStore × C
  recorded (err e, c) s = (err e, s, c)
  recorded (ok refs, c) s = let (result, s') = record_issue_refs refs s in (result, s', c)

  unfoldable pub open_issues :
      List NegotiationEntry
      → Result (Option String)
      → MockNegotiationStore
      → C
      → Result NegotiationFinalizationResult × MockNegotiationStore × C
  open_issues thread (err e) s c = (err e, s, c)
  open_issues thread (ok contract) s c = elim (contract_of contract thread) [
    | err e ↦ (err e, s, c)
    | ok contract ↦ recorded (create_issue_pair thread contract c) s
  ]

  unfoldable pub after_refs :
      List NegotiationEntry
      → Result (Option NegotiationIssueRefs)
      → MockNegotiationStore
      → C
      → Result NegotiationFinalizationResult × MockNegotiationStore × C
  after_refs thread (err e) s c = (err e, s, c)
  after_refs thread (ok (some refs)) s c =
      let (result, s') =
        bind (settle_thread_members k) (λ _. pure (finalization_result refs false)) s in
      (result, s', c)
  after_refs thread (ok none) s c = open_issues thread (get_agreed_contract k s) s c

  unfoldable pub finalize_negotiation :
      MockNegotiationStore → C → Result NegotiationFinalizationResult × MockNegotiationStore × C
  finalize_negotiation s c =
      let (required, s') = require_finalizable r.sha256 k s in
      elim required [
        | err e ↦ (err e, s', c)
        | ok thread ↦ after_refs thread (get_issue_refs k s') s' c
      ]
