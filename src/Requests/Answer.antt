-- ===== src/Requests/Answer.antt =====
-- commands/request/routing.py: linking a proposal; commands/request/answers.py and inbox.py: answering
-- the questions that come before the routing, and those of a target.
use issuekit.Prelude.{
  ℕ, suc, String, Bool, true, false, not, ◌&&◌, ◌||◌, Option, none, some, List, [], ◌∷◌, ◌++◌,
  if◌then◌else◌, ◌==◌, is_empty, eqb, length, select, is_some, Result, ok, err, Error, workflow,
  plain_workflow, value_error, proposal_error, guard, ◌>>=◌,
}
use issuekit.Prelude.Text.{strip, cut}
use issuekit.Prelude.Decimal.{show}
use issuekit.Prelude.Effects.{Effect, return, fail, lift, then_do}
use issuekit.Agents.Router.{RouterDecision}
use issuekit.Requests.State.{
  Qa, Target, Request, Requests, get_request, put_request, qa_pairs, compose_amended_body,
  resolve_depends_on, refs_by_target_index, target_depends_on, words, or_unknown,
}
use issuekit.Requests.Build.{Draft}
use issuekit.Requests.Routing.{
  Proposals, World, Context, SentTarget, on_api, save_state, target_at, set_target, sent_update,
  send_target_proposal,
}
use issuekit.Requests.Decide.{Payload, proposal_ref_parts, decide_with}

-- A question of a target that waits for an answer, in a proposal that replies to the target's.
pub record PendingQuestion : Type 0 where
  pub request_id : ℕ
  pub target_index : ℕ
  pub target_project : String
  pub proposal_ref : String
  pub reply_proposal_id : String
  pub question : String

-- The unsent targets of a project, with their indexes from this one on.
unfoldable pub unsent_of : String → ℕ → List Target → List (ℕ × Target)
unsent_of project n [] = []
unsent_of project n (target ∷ targets) =
    let rest = unsent_of project (suc n) targets in
    if target.project == project && is_empty (strip target.proposal_ref)
    then (n, target) ∷ rest
    else rest

abbrev pub the_only : List (ℕ × Target) → Result (ℕ × Target)
the_only (one ∷ []) = ok one
the_only _ = err value_error

-- A proposal that is not there is a wrong argument.
abbrev missing_proposal : Result String → Result String
missing_proposal (ok status) = ok status
missing_proposal (err (workflow code)) =
    if code == "not_found" || code == "http_404" then err value_error else err (workflow code)
missing_proposal (err e) = err e

unfoldable pub found_request : ℕ → Requests → Result Request
found_request n state = elim (get_request n state) [ none ↦ err value_error | some r ↦ ok r ]

unfoldable pub wanted_proposal : String → String → Result ℕ
wanted_proposal target_project ref = elim (proposal_ref_parts ref) [
  | none ↦ err value_error
  | some (project, id) ↦ if project == target_project then ok id else err value_error
]

abbrev pub linked_target : String → ℕ → String → Target → Target
linked_target ref id status target = record target {
  proposal_ref = ref;
  proposal_id = show id;
  status = if is_empty status then "linked" else status;
}

-- The request, the proposal's id, and the one unsent target of the project.
unfoldable pub link_checks : ℕ → String → String → Requests → Result (Request × ℕ × ℕ × Target)
link_checks request_id target_project ref state = do
  r ← found_request request_id state
  id ← wanted_proposal target_project ref
  (index, target) ← the_only (unsent_of target_project 0 r.targets)
  ok (r, id, index, target)

abbrev pub amended : Target → SentTarget → List Qa → Target
amended target sent_target clarifications = record (sent_update target sent_target) {
  clarifications = clarifications;
}

-- What stands after the `#` of a reference; one without is an `IndexError`.
abbrev id_part : String → Result String
id_part ref = elim (cut b'#' ref) [ none ↦ err Error.lookup_error | some (before, id) ↦ ok id ]

unfoldable pub amended_origin : String → Option String → ℕ → String → String → ℕ → Result String
amended_origin project head request_id target_project previous_ref round_count =
    id_part previous_ref >>= λ previous_id. ok (
      words (
        project
        ∷ "#request-"
        ∷ show request_id
        ∷ "-"
        ∷ target_project
        ∷ "-"
        ∷ previous_id
        ∷ "-round-"
        ∷ show round_count
        ∷ "@"
        ∷ or_unknown head
        ∷ []))

-- What a reply is made of: the clarifications, the new body, and the references.
pub record Reply : Type 0 where
  pub clarifications : List Qa
  pub body : String
  pub depends_on : List String

unfoldable pub prepare_target_reply : Target → PendingQuestion → String → List Target → Result Reply
prepare_target_reply target pending answer targets =
    let clarifications =
      qa_pairs target.clarifications
      ++ (record { question = strip pending.question; answer = strip answer } ∷ []) in
    guard (strip target.proposal_ref == pending.proposal_ref) value_error >>= λ _.
    resolve_depends_on (target_depends_on target) (refs_by_target_index targets) >>= λ depends_on.
    ok (record {
      clarifications = clarifications;
      body = compose_amended_body (strip target.body) clarifications (strip target.proposal_ref);
      depends_on = depends_on;
    })

-- One question is chosen: the only one, or the only one of the target's project.
unfoldable pub chosen_question :
    Option String → List PendingQuestion → Result (Option PendingQuestion)
chosen_question none [] = ok none
chosen_question (some project) [] = err value_error
chosen_question project (one ∷ []) = ok (some one)
chosen_question project (one ∷ other ∷ more) = err value_error

-- A blank project is none.
abbrev named : Option String → Option String
named none = none
named (some project) = if is_empty project then none else some project

abbrev of_project : Option String → List PendingQuestion → List PendingQuestion
of_project none pending = pending
of_project (some project) pending =
    select (λ (q : PendingQuestion). q.target_project == project) pending

module _ {S : Type 0} (api : Proposals S) (context : Context) where
  unfoldable pub link_found :
      ℕ → String → String → Requests → Request × ℕ × ℕ × Target → Effect (World S) Payload
  link_found request_id target_project ref state (r, id, index, target) =
      then_do
        (λ w.
          let (status, w') = on_api api context (api.get_proposal target_project id) w in
          (missing_proposal status, w'))
        (λ status.
          then_do
            (save_state api context (
              put_request request_id
                (record r {
                  targets = set_target index (linked_target ref id status target) r.targets;
                })
                state))
            (λ _. return (Payload.linked target_project ref)))

  unfoldable pub run_link : ℕ → String → String → Effect (World S) Payload
  run_link request_id target_project proposal_ref w =
      then_do (lift (link_checks request_id target_project (strip proposal_ref) w.saved))
        (link_found request_id target_project (strip proposal_ref) w.saved) w

  abbrev pub reply_draft : Target → Reply → String → Draft
  reply_draft target reply origin = record {
    project = target.project;
    title = target.title;
    body = reply.body;
    blocking = target.blocking;
    depends_on = reply.depends_on;
    origin = origin;
  }

  unfoldable pub send_target_reply : ℕ → Target → Reply → Effect (World S) SentTarget
  send_target_reply request_id target reply =
      then_do
        (lift (
          amended_origin context.project context.short_head request_id target.project
            (strip target.proposal_ref) (length reply.clarifications)))
        (λ origin.
          then_do (send_target_proposal api context (reply_draft target reply origin))
            (λ sent_target.
              lift
                (if sent_target.sent.payload_mismatch then err proposal_error else ok sent_target)))

  -- The amended target is saved before the reply is discarded.
  unfoldable pub finish_target_reply :
      Requests → Request → PendingQuestion → Target → Reply → SentTarget → Effect (World S) Payload
  finish_target_reply state r pending target reply sent_target =
      let targets =
        set_target pending.target_index (amended target sent_target reply.clarifications)
          r.targets in
      then_do
        (save_state api context
          (put_request pending.request_id (record r { targets = targets }) state))
        (λ _. then_do (on_api api context (api.discard_proposal pending.reply_proposal_id)) (λ _.
          return (Payload.answered target.project sent_target.proposal_ref pending.proposal_ref)))

  unfoldable pub reply_to_target :
      Requests → Request → PendingQuestion → String → Option Target → Effect (World S) Payload
  reply_to_target state r pending answer none = fail Error.lookup_error
  reply_to_target state r pending answer (some target) =
      then_do (lift (prepare_target_reply target pending answer r.targets)) (λ reply.
        then_do (send_target_reply pending.request_id target reply)
          (finish_target_reply state r pending target reply))

  unfoldable pub run_target_reply_answer :
      Requests → Request → PendingQuestion → String → Bool → Effect (World S) Payload
  run_target_reply_answer state r pending answer dry_run =
      if dry_run
      then return (Payload.answered pending.target_project "" pending.proposal_ref)
      else reply_to_target state r pending answer (target_at pending.target_index r.targets)

  -- The answer is saved before the router is asked again.
  unfoldable pub run_pre_routing_answer :
      (String → List Qa → Bool → Result RouterDecision)
      → Requests
      → ℕ
      → Request
      → String
      → String
      → Bool
      → World S
      → Option (Result Payload × World S)
  run_pre_routing_answer router state request_id r question answer dry_run w =
      let qa = qa_pairs r.qa ++ (record { question = question; answer = strip answer } ∷ []) in
      let r' = record r { qa = qa; pending_question = "" } in
      let state' = put_request request_id r' state in
      if is_empty context.router_agent
      then some (err plain_workflow, w)
      else if dry_run
      then decide_with api context router state request_id r qa true w
      else decide_with api context router state' request_id r' qa false
          (record w { saved = state' })

  -- `questions` are the request's questions in the inbox.
  unfoldable pub answer_target :
      Requests → Request → Option PendingQuestion → String → Bool → Effect (World S) Payload
  answer_target state r none answer dry_run = fail value_error
  answer_target state r (some pending) answer dry_run =
      run_target_reply_answer state r pending answer dry_run

  unfoldable pub answer_request :
      (String → List Qa → Bool → Result RouterDecision)
      → Result (List PendingQuestion)
      → ℕ
      → String
      → Option String
      → Bool
      → Request
      → World S
      → Option (Result Payload × World S)
  answer_request router questions request_id answer target_project dry_run r w =
      let question = strip r.pending_question in
      if not (is_empty question) && eqb (length r.targets) 0
      then if is_some (named target_project)
        then some (err value_error, w)
        else run_pre_routing_answer router w.saved request_id r question answer dry_run w
      else some (
          then_do
            (lift (
              questions >>= λ pending.
              chosen_question (named target_project) (of_project (named target_project) pending)))
            (λ chosen. answer_target w.saved r chosen answer dry_run) w)

  unfoldable pub run_answer :
      (String → List Qa → Bool → Result RouterDecision)
      → Result (List PendingQuestion)
      → ℕ
      → String
      → Option String
      → Bool
      → World S
      → Option (Result Payload × World S)
  run_answer router questions request_id answer target_project dry_run w =
      elim (found_request request_id w.saved) [
        | err e ↦ some (err e, w)
        | ok r ↦ answer_request router questions request_id answer target_project dry_run r w
      ]
