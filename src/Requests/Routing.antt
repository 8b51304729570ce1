-- ===== src/Requests/Routing.antt =====
-- commands/request/routing.py: what a decision of the router does to a request. The proposals are an
-- interface over a state of its own; the file of the requests is the other part of the world.
pub mod Places
pub mod Delivery
pub mod Rounds
pub mod Delivered
pub mod Kept
pub mod Lasting
use Prim.Native.String
use issuekit.Prelude.{
  ℕ, zero, suc, ◌+◌, String, Bool, true, false, not, ◌&&◌, ◌||◌, Option, none, some, List, [], ◌∷◌,
  ◌++◌, if◌then◌else◌, ◌==◌, is_empty, is_some, or_empty, eqb, ltb, leb, any, select, length,
  Result, ok, err, Error, workflow, value_error, plain_workflow, proposal_error, guard, ◌>>=◌, ◌>>◌,
}
use issuekit.Prelude.Text.{strip}
use issuekit.Prelude.Decimal.{show}
use issuekit.Prelude.Effects.{Effect, return, fail, lift, then_do}
use issuekit.Config.{has}
use issuekit.Agents.Router.{RouteTarget, RouterDecision, placeholder_index}
use issuekit.Requests.Build.{Draft, Proposal, build_proposal}
use issuekit.Requests.State.{
  Qa, Target, Request, Requests, Refs, get_request, put_request, target_state, ref_at,
  resolve_depends_on, or_text, target_depends_on, routed_origin, qa_pairs, find_or_create_request,
}

-- The API's answer to a proposal; a dependency reference that is not there is the empty text.
pub record Sent : Type 0 where
  pub id : String
  pub dependency_ref : String
  pub payload_mismatch : Bool

pub record SentTarget : Type 0 where
  pub sent : Sent
  pub proposal_ref : String
  pub dependency_ref : String

-- What the command calls of the proposals: sending one, the status of one, discarding one; and the search
-- of a body for structured references.
pub record Proposals (S : Type 0) : Type 0 where
  pub structured_refs : String → List String
  pub send_proposal : Proposal → Effect S Sent
  pub get_proposal : String → ℕ → Effect S String
  pub discard_proposal : String → Effect S (Unit {0})

-- The saved requests, and the state of the API.
pub record World (S : Type 0) : Type 0 where
  pub saved : Requests
  pub api : S

-- What the flows read of the configuration and of Git.
pub record Context : Type 0 where
  pub api_url : Option String
  pub project : String
  pub short_head : Option String
  pub max_clarify_rounds : ℕ
  pub router_agent : String

unfoldable pub target_at : ℕ → List Target → Option Target
target_at n [] = none
target_at zero (target ∷ targets) = some target
target_at (suc n) (target ∷ targets) = target_at n targets

unfoldable pub set_target : ℕ → Target → List Target → List Target
set_target n new [] = []
set_target zero new (target ∷ targets) = new ∷ targets
set_target (suc n) new (target ∷ targets) = target ∷ set_target n new targets

-- The first index of a project, if two targets have none in common.
unfoldable pub project_index : String → List (String × ℕ) → Option ℕ
project_index project [] = none
project_index project ((p, n) ∷ indexes) =
    if p == project then some n else project_index project indexes

unfoldable pub saved_indexes : ℕ → List Target → List (String × ℕ) → Result (List (String × ℕ))
saved_indexes n [] indexes = ok indexes
saved_indexes n (target ∷ targets) indexes =
    if is_some (project_index target.project indexes)
    then err proposal_error
    else saved_indexes (suc n) targets ((target.project, n) ∷ indexes)

-- The index under which each routed target is saved, in the order of the targets.
unfoldable pub routed_indexes :
    List RouteTarget → List String → ℕ → List (String × ℕ) → Result (List ℕ)
routed_indexes [] seen next indexes = ok []
routed_indexes (target ∷ targets) seen next indexes =
    if has target.project seen
    then err proposal_error
    else elim (project_index target.project indexes) [
      | some n ↦
          routed_indexes targets (target.project ∷ seen) next indexes >>= λ rest. ok (n ∷ rest)
      | none ↦
          routed_indexes targets (target.project ∷ seen) (suc next)
            ((target.project, next) ∷ indexes)
          >>= λ rest. ok (next ∷ rest)
    ]

unfoldable pub route_target_indexes : List Target → List RouteTarget → Result (List ℕ)
route_target_indexes existing targets =
    saved_indexes 0 existing [] >>= λ indexes. routed_indexes targets [] (length existing) indexes

abbrev pub nth : ℕ → List ℕ → Option ℕ
nth n [] = none
nth zero (i ∷ indexes) = some i
nth (suc n) (i ∷ indexes) = nth n indexes

-- A placeholder names the saved index; an index that is not there is a `KeyError`.
unfoldable pub saved_target_reference : List ℕ → String → Option String
saved_target_reference indexes ref = elim (placeholder_index ref) [
  | none ↦ some ref
  | some n ↦ elim (nth n indexes) [ none ↦ none | some i ↦ some (String.◌++◌ "target:" (show i)) ]
]

unfoldable pub saved_references : List ℕ → List String → Result (List String)
saved_references indexes [] = ok []
saved_references indexes (ref ∷ refs) = elim (saved_target_reference indexes ref) [
  | none ↦ err Error.lookup_error
  | some first ↦ saved_references indexes refs >>= λ rest. ok (first ∷ rest)
]

abbrev pub is_project : List Target → String → Bool
is_project existing project = any (λ (target : Target). target.project == project) existing

-- The targets that are not saved yet, with their references made stable.
unfoldable pub new_targets : List Target → List ℕ → List RouteTarget → Result (List Target)
new_targets existing indexes [] = ok []
new_targets existing indexes (target ∷ targets) =
    if is_project existing target.project
    then new_targets existing indexes targets
    else (saved_references indexes target.depends_on >>= λ depends_on.
        new_targets existing indexes targets >>= λ rest.
        ok (target_state (record target { depends_on = depends_on }) ∷ rest))

unfoldable pub prepared_targets : List Target → List RouteTarget → Result (List Target)
prepared_targets existing targets = route_target_indexes existing targets >>= λ indexes.
    new_targets existing indexes targets >>= λ new. ok (existing ++ new)

-- A dependency that is a placeholder is ready when the proposal of its target is sent.
unfoldable pub is_ready_reference : Refs → String → Bool
is_ready_reference refs ref = elim (placeholder_index ref) [
  | none ↦ true
  | some n ↦ is_some (ref_at n refs)
]

unfoldable pub target_dependencies_ready : List String → Refs → Bool
target_dependencies_ready [] refs = true
target_dependencies_ready (ref ∷ depends_on) refs =
    is_ready_reference refs ref && target_dependencies_ready depends_on refs

-- The references of the targets that are sent already, from the one with this index on.
unfoldable pub sent_refs : ℕ → List Target → Refs
sent_refs n [] = []
sent_refs n (target ∷ targets) =
    let rest = sent_refs (suc n) targets in
    if is_empty (strip target.proposal_ref)
    then rest
    else (n, or_text target.dependency_ref (strip target.proposal_ref)) ∷ rest

-- The indexes of the targets that are not.
unfoldable pub pending_from : ℕ → List Target → List ℕ
pending_from n [] = []
pending_from n (target ∷ targets) =
    let rest = pending_from (suc n) targets in
    if is_empty (strip target.proposal_ref) then n ∷ rest else rest

abbrev pub ready_at : Option Target → Refs → Bool
ready_at none refs = false
ready_at (some target) refs = target_dependencies_ready (target_depends_on target) refs

abbrev pub is_ready : List Target → Refs → ℕ → Bool
is_ready targets refs n = ready_at (target_at n targets) refs

abbrev pub sent_update : Target → SentTarget → Target
sent_update stored sent_target = record stored {
  proposal_ref = sent_target.proposal_ref;
  dependency_ref = sent_target.dependency_ref;
  proposal_id = sent_target.sent.id;
}

module _ {S : Type 0} (api : Proposals S) (context : Context) where
  abbrev pub on_api : {A : Type 0} → Effect S A → Effect (World S) A
  on_api m w = let (r, s) = m w.api in (r, record w { api = s })

  abbrev pub save_state : Requests → Effect (World S) (Unit {0})
  save_state state w = (ok tt, record w { saved = state })

  abbrev pub sent_target_of : String → Sent → SentTarget
  sent_target_of project sent =
      let proposal_ref = String.◌++◌ project (String.◌++◌ "#" sent.id) in
      record {
        sent = sent;
        proposal_ref = proposal_ref;
        dependency_ref = or_text sent.dependency_ref proposal_ref;
      }

  abbrev pub proposal_of : Draft → Result Proposal
  proposal_of draft =
      build_proposal context.api_url context.project context.short_head api.structured_refs draft

  unfoldable pub send_target_proposal : Draft → Effect (World S) SentTarget
  send_target_proposal draft = then_do (lift (proposal_of draft)) (λ proposal.
      then_do (on_api (api.send_proposal (record proposal { origin = draft.origin })))
        (λ sent. return (sent_target_of draft.project sent)))

  abbrev pub draft_of : ℕ → ℕ → Target → List String → Draft
  draft_of request_id index stored depends_on = record {
    project = stored.project;
    title = stored.title;
    body = stored.body;
    blocking = stored.blocking;
    depends_on = depends_on;
    origin = routed_origin context.project context.short_head request_id index stored.project;
  }

  -- The request with these targets, among the others.
  abbrev pub with_targets : ℕ → Request → Requests → List Target → Requests
  with_targets request_id r state targets =
      put_request request_id (record r { targets = targets }) state

  -- The target is recorded as sent, unless its proposal differs from one that is pending.
  unfoldable pub record_sent :
      Requests
      → ℕ
      → Request
      → List Target
      → ℕ
      → Target
      → SentTarget
      → Effect (World S) (String × List Target)
  record_sent state request_id r targets index stored sent_target =
      if sent_target.sent.payload_mismatch
      then then_do (save_state (with_targets request_id r state targets)) (λ _. fail proposal_error)
      else let updated = set_target index (sent_update stored sent_target) targets in
        then_do (save_state (with_targets request_id r state updated))
          (λ _. return (sent_target.dependency_ref, updated))

  unfoldable pub send_stored_target :
      Requests
      → ℕ
      → Request
      → List Target
      → ℕ
      → Refs
      → Target
      → Effect (World S) (String × List Target)
  send_stored_target state request_id r targets index refs stored =
      then_do (lift (resolve_depends_on (target_depends_on stored) refs)) (λ depends_on.
        then_do (send_target_proposal (draft_of request_id index stored depends_on))
          (λ sent_target. record_sent state request_id r targets index stored sent_target))

  unfoldable pub send_route_target :
      Requests → ℕ → Request → List Target → ℕ → Refs → Effect (World S) (String × List Target)
  send_route_target state request_id r targets index refs = elim (target_at index targets) [
    | none ↦ fail Error.lookup_error
    | some stored ↦ send_stored_target state request_id r targets index refs stored
  ]

  -- The inner loop, over the indexes that are ready.
  unfoldable pub send_ready :
      Requests → ℕ → Request → List ℕ → List Target → Refs → Effect (World S) (List Target × Refs)
  send_ready state request_id r [] targets refs = return (targets, refs)
  send_ready state request_id r (index ∷ ready) targets refs =
      then_do (send_route_target state request_id r targets index refs)
        (λ sent. send_ready state request_id r ready sent.1 ((index, sent.0) ∷ refs))

  abbrev pub left_of : List ℕ → List ℕ → List ℕ
  left_of ready pending = select (λ n. not (any (eqb n) ready)) pending

  abbrev pub Rounds : Type 0
  Rounds = Option (Result (List Target) × World S)

  abbrev pub after_round :
      (List Target → Refs → World S → Rounds) → Result (List Target × Refs) × World S → Rounds
  after_round more (err e, w) = some (err e, w)
  after_round more (ok (targets, refs), w) = more targets refs w

  -- A round over the indexes that are ready, and what comes after it.
  abbrev pub one_round :
      Requests
      → ℕ
      → Request
      → List ℕ
      → List Target
      → Refs
      → (List ℕ → List Target → Refs → World S → Rounds)
      → World S
      → Rounds
  one_round state request_id r [] targets refs more w = some (err proposal_error, w)
  one_round state request_id r (i ∷ others) targets refs more w =
      after_round (more (i ∷ others)) (send_ready state request_id r (i ∷ others) targets refs w)

  -- The outer loop: a round sends every pending target whose dependencies are ready. It gives none when
  -- the fuel is used up.
  unfoldable pub send_rounds :
      ℕ → Requests → ℕ → Request → List ℕ → List Target → Refs → World S → Rounds
  send_rounds fuel state request_id r [] targets refs w = some (ok targets, w)
  send_rounds zero state request_id r (n ∷ pending) targets refs w = none
  send_rounds (suc fuel) state request_id r (n ∷ pending) targets refs w =
      one_round state request_id r (select (is_ready targets refs) (n ∷ pending)) targets refs
        (λ ready. send_rounds fuel state request_id r (left_of ready (n ∷ pending))) w

  abbrev pub send_pending_route_targets :
      Requests → ℕ → Request → List Target → World S → Option (Result (List Target) × World S)
  send_pending_route_targets state request_id r targets =
      send_rounds (length targets) state request_id r (pending_from 0 targets) targets
        (sent_refs 0 targets)
