-- ===== src/Requests/Clarify.antt =====
-- About commands/request/routing.py: when a question is left for a request.
use mathlib.Core.Path.{subst}
use issuekit.Prelude.{
  ℕ, ◌<◌, String, ◌≡◌, refl, Bool, true, false, Option, none, some, List, ◌==◌, is_empty, eqb,
  length, arith, ◌∙◌, inl, inr, Bool-cases, Result, ok, err, Result-cases,
}
use issuekit.Agents.Router.{RouterDecision}
use issuekit.Requests.State.{
  Qa, Target, Request, Requests, get_request, put_request, find_or_create_request, qa_pairs,
}
use issuekit.Requests.Found.{get_request-put}
use issuekit.Requests.Routing.{
  Proposals, World, Context, prepared_targets, send_pending_route_targets,
}
use issuekit.Requests.Decide.{
  Payload, limited, clarified, routing, sent_payload, send_prepared, send_route_targets,
  save_request, act_on, handle_decision, at_limit, decide_with, run_new_request,
}

-- The request with its question.
abbrev pub asked : String → Request → Request
asked question r = record r { decision = "clarify"; pending_question = question }

module _ {S : Type 0} (api : Proposals S) (context : Context) where
  -- If a question was left: it is below the limit, and the request has it.
  abbrev Asks : ℕ → Request → List Qa → Option (Result Payload × World S) → Type 0
  Asks request_id r qa none = Unit
  Asks request_id r qa (some (err e, w)) = Unit
  Asks request_id r qa (some (ok (Payload.clarify question), w)) =
      (length qa < context.max_clarify_rounds)
      × (get_request request_id w.saved ≡ some (asked question r))
  Asks request_id r qa (some (ok (Payload.decided d), w)) = Unit
  Asks request_id r qa (some (ok (Payload.reject reason), w)) = Unit
  Asks request_id r qa (some (ok (Payload.routed targets), w)) = Unit
  Asks request_id r qa (some (ok (Payload.linked a b), w)) = Unit
  Asks request_id r qa (some (ok (Payload.answered a b c), w)) = Unit

  sent_payload-Asks :
      (n : ℕ) (r : Request) (qa : List Qa) (o : Option (Result (List Target) × World S))
      → Asks n r qa (sent_payload api context o)
  sent_payload-Asks n r qa none = tt
  sent_payload-Asks n r qa (some (err e, w)) = tt
  sent_payload-Asks n r qa (some (ok targets, w)) = tt

  send_prepared-Asks :
      (n : ℕ) (r : Request) (qa : List Qa) (state : Requests) (prepared : Result (List Target))
      (w : World S)
      → Asks n r qa (send_prepared api context state n r prepared w)
  unfolding send_prepared
  send_prepared-Asks n r qa state (err e) w = tt
  send_prepared-Asks n r qa state (ok targets) w =
      let r' = routing targets r in
      let state' = put_request n r' state in
      sent_payload-Asks n r qa
        (send_pending_route_targets api context state' n r' targets (record w { saved = state' }))

  act_on-Asks :
      (n : ℕ) (r : Request) (qa : List Qa) (state : Requests) (decision : RouterDecision)
      (w : World S)
      → ((decision.decision == "clarify") ≡ true → length qa < context.max_clarify_rounds)
      → Asks n r qa (act_on api context state n r decision w)
  unfolding act_on send_route_targets save_request
  act_on-Asks n r qa state decision w below = elim (Bool-cases (decision.decision == "clarify")) [
    | inl asks ↦
        let self : eqb n n ≡ true = ground arith in
        rw asks (below asks, get_request-put n n (clarified decision r) state ∙ rw self refl)
    | inr other ↦ elim (Bool-cases (decision.decision == "reject")) [
      | inl rejects ↦ rw (other, rejects) tt
      | inr routes ↦
          rw (other, routes)
            (send_prepared-Asks n r qa state (prepared_targets r.targets decision.targets) w)
    ]
  ]

  limited-below :
      (qa : List Qa) (decision : RouterDecision)
      → ((limited (at_limit api context qa) decision).decision == "clarify") ≡ true
      → length qa < context.max_clarify_rounds
  unfolding limited
  limited-below qa decision h = elim (Bool-cases (at_limit api context qa)) [
    | inr below ↦ ground arith
    | inl reached ↦ elim (Bool-cases (decision.decision == "clarify")) [
      | inl asks ↦ let bad : false ≡ true = rw (reached, asks) at h in cc
      | inr other ↦ let bad = rw (reached, other) at h in cc
    ]
  ]

  decide_with-Asks :
      (router : String → List Qa → Bool → Result RouterDecision) (n : ℕ) (r : Request)
      (qa : List Qa) (state : Requests) (dry_run : Bool) (w : World S)
      → Asks n r qa (decide_with api context router state n r qa dry_run w)
  unfolding decide_with handle_decision
  decide_with-Asks router n r qa state dry_run w =
      elim (Result-cases (router r.original_text qa (at_limit api context qa))) [
        | inr (e, failed) ↦ rw (failed, decide_with) tt
        | inl (decision, answered) ↦ elim (Bool-cases dry_run) [
          | inl dry ↦ rw (answered, decide_with, dry) tt
          | inr saves ↦
              rw (answered, decide_with, saves)
                (act_on-Asks n r qa state (limited (at_limit api context qa) decision) w
                  (limited-below qa decision))
        ]
      ]

  -- When a new request ends with a question, fewer rounds than the limit have been asked, and the request is
  -- saved with the question.
  pub run_new_request-asked :
      (router : String → List Qa → Bool → Result RouterDecision) (text : String) (dry_run : Bool)
      (w w' : World S) (question : String)
      → run_new_request api context router text dry_run w ≡ some (ok (Payload.clarify question), w')
      → (length (qa_pairs (find_or_create_request w.saved text).1.qa) < context.max_clarify_rounds)
        × (get_request (find_or_create_request w.saved text).0 w'.saved
            ≡ some (asked question (find_or_create_request w.saved text).1))
  unfolding run_new_request
  run_new_request-asked router text dry_run w w' question ended =
      let found = find_or_create_request w.saved text in
      elim (Bool-cases (is_empty context.router_agent)) [
        | inl without ↦ let bad = rw without at ended in cc
        | inr with_router ↦
            let done = rw with_router at ended in
            subst (Asks found.0 found.1 (qa_pairs found.1.qa)) done
              (decide_with-Asks router found.0 found.1 (qa_pairs found.1.qa) found.2 dry_run w)
      ]
