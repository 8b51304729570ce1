-- ===== src/Requests/Decide.antt =====
-- commands/request/routing.py: the handling of a decision, a new request, and the linking of a proposal.
-- What is printed is the payload that a flow returns.
use Prim.Native.Char.{code}
use issuekit.Prelude.{
  ℕ, String, Bool, false, not, ◌&&◌, Option, none, some, List, [], if◌then◌else◌, ◌==◌, is_empty,
  leb, eqb, length, Result, ok, err, plain_workflow,
}
use issuekit.Prelude.Text.{cut}
use issuekit.Prelude.Decimal.{read_after}
use issuekit.Agents.Router.{RouteTarget, RouterDecision, is_number, all_chars, is_project_char}
use issuekit.Requests.State.{
  Qa, Target, Request, Requests, put_request, find_or_create_request, qa_pairs,
}
use issuekit.Requests.Routing.{
  Proposals, World, Context, prepared_targets, send_pending_route_targets,
}

-- What a flow reports.
pub data Payload : Type 0 where
  decided : RouterDecision → Payload
  clarify : String → Payload
  reject : String → Payload
  routed : List Target → Payload
  linked : String → String → Payload
  answered : String → String → String → Payload

abbrev starts_with_zero : String → Bool
starts_with_zero String.[] = false
starts_with_zero (String.◌∷◌ c s) = eqb (code c) b'0'

-- [1-9][0-9]*
abbrev is_positive : String → Bool
is_positive s = is_number s && not (starts_with_zero s)

-- `PROPOSAL_REF_PATTERN`, of a text that ends in no line break: the project and the id.
unfoldable pub proposal_ref_parts : String → Option (String × ℕ)
proposal_ref_parts s = elim (cut b'#' s) [
  | none ↦ none
  | some (project, digits) ↦
      if not (is_empty project) && all_chars is_project_char project && is_positive digits
      then some (project, read_after 0 digits)
      else none
]

abbrev pub limit_reason : String
limit_reason = "Clarification limit reached and the router still requested clarification."

-- A question after the last round of clarification counts as a rejection.
unfoldable pub limited : Bool → RouterDecision → RouterDecision
limited force decision =
    if decision.decision == "clarify" && force
    then record { decision = "reject"; targets = []; question = ""; reason = limit_reason }
    else decision

-- A rejected or clarified request.
abbrev pub clarified : RouterDecision → Request → Request
clarified decision r = record r { decision = "clarify"; pending_question = decision.question }

abbrev pub rejected : RouterDecision → Request → Request
rejected decision r = record r {
  decision = "reject";
  reason = decision.reason;
  pending_question = "";
}

abbrev pub routing : List Target → Request → Request
routing targets r = record r { decision = "route"; pending_question = ""; targets = targets }

module _ {S : Type 0} (api : Proposals S) (context : Context) where
  -- Nothing when the fuel of the sending is used up, which it is not.
  abbrev pub sent_payload :
      Option (Result (List Target) × World S) → Option (Result Payload × World S)
  sent_payload none = none
  sent_payload (some (err e, w)) = some (err e, w)
  sent_payload (some (ok targets, w)) = some (ok (Payload.routed targets), w)

  unfoldable pub send_prepared :
      Requests → ℕ → Request → Result (List Target) → World S → Option (Result Payload × World S)
  send_prepared state request_id r (err e) w = some (err e, w)
  send_prepared state request_id r (ok targets) w =
      let r' = routing targets r in
      let state' = put_request request_id r' state in
      sent_payload (
        send_pending_route_targets api context state' request_id r' targets
          (record w { saved = state' }))

  unfoldable pub send_route_targets :
      Requests → ℕ → Request → List RouteTarget → World S → Option (Result Payload × World S)
  send_route_targets state request_id r targets w =
      send_prepared state request_id r (prepared_targets r.targets targets) w

  unfoldable pub save_request :
      Requests → ℕ → Request → Payload → World S → Option (Result Payload × World S)
  save_request state request_id r payload w =
      some (ok payload, record w { saved = put_request request_id r state })

  unfoldable pub act_on :
      Requests → ℕ → Request → RouterDecision → World S → Option (Result Payload × World S)
  act_on state request_id r decision w =
      if decision.decision == "clarify"
      then save_request state request_id (clarified decision r) (Payload.clarify decision.question)
          w
      else if decision.decision == "reject"
      then save_request state request_id (rejected decision r) (Payload.reject decision.reason) w
      else send_route_targets state request_id r decision.targets w

  unfoldable pub handle_decision :
      Requests
      → ℕ
      → Request
      → RouterDecision
      → Bool
      → Bool
      → World S
      → Option (Result Payload × World S)
  handle_decision state request_id r decision dry_run force w =
      if dry_run
      then some (ok (Payload.decided decision), w)
      else act_on state request_id r (limited force decision) w

  abbrev pub at_limit : List Qa → Bool
  at_limit qa = leb context.max_clarify_rounds (length qa)

  -- The router is asked with the text and the rounds so far, and whether the decision has to be final.
  unfoldable pub decide_with :
      (String → List Qa → Bool → Result RouterDecision)
      → Requests
      → ℕ
      → Request
      → List Qa
      → Bool
      → World S
      → Option (Result Payload × World S)
  decide_with router state request_id r qa dry_run w =
      elim (router r.original_text qa (at_limit qa)) [
        | err e ↦ some (err e, w)
        | ok decision ↦ handle_decision state request_id r decision dry_run (at_limit qa) w
      ]

  unfoldable pub run_new_request :
      (String → List Qa → Bool → Result RouterDecision)
      → String
      → Bool
      → World S
      → Option (Result Payload × World S)
  run_new_request router text dry_run w =
      if is_empty context.router_agent
      then some (err plain_workflow, w)
      else let (request_id, r, state) = find_or_create_request w.saved text in
        decide_with router state request_id r (qa_pairs r.qa) dry_run w
