-- ===== src/Requests/Answered.antt =====
-- About commands/request/answers.py: what is saved when a question that comes before the routing is answered.
use issuekit.Prelude.{
  ℕ, String, ◌≡◌, refl, Bool, true, false, Option, none, some, List, [], ◌∷◌, ◌++◌, ◌==◌, is_empty,
  is_some, eqb, length, arith, ap, ◌∙◌, inl, inr, Bool-cases, Result, ok, err, Result-cases,
}
use issuekit.Prelude.Text.{strip}
use issuekit.Agents.Router.{RouterDecision}
use issuekit.Requests.State.{Qa, Target, Request, Requests, get_request, put_request, qa_pairs}
use issuekit.Requests.Found.{get_request-put}
use issuekit.Requests.Routing.{
  Proposals, World, Context, prepared_targets, send_pending_route_targets, pending_from, sent_refs,
}
use issuekit.Requests.Routing.Places.{length-pending_from}
use issuekit.Requests.Routing.Kept.{Saved, Leaves, send_rounds-Leaves}
use issuekit.Requests.Routing.Lasting.{send_rounds_total}
use issuekit.Requests.Decide.{
  limited, clarified, rejected, routing, sent_payload, send_prepared, send_route_targets,
  save_request, act_on, handle_decision, at_limit, decide_with,
}
use issuekit.Requests.Answer.{run_pre_routing_answer}

-- It ends, and the request is saved with these rounds.
abbrev pub Holds : {S A : Type 0} → ℕ → List Qa → Option (Result A × World S) → Type 0
Holds n qa none = false ≡ true
Holds n qa (some (outcome, w)) = (r : Request) × (get_request n w.saved ≡ some r) × (r.qa ≡ qa)

put-Holds :
    (n : ℕ) (r : Request) (state saved : Requests) (qa : List Qa)
    → saved ≡ put_request n r state
    → r.qa ≡ qa
    → (q : Request) × (get_request n saved ≡ some q) × (q.qa ≡ qa)
put-Holds n r state saved qa e same =
    let self : eqb n n ≡ true = ground arith in
    (r, ap (get_request n) e ∙ get_request-put n n r state ∙ rw self refl, same)

module _ {S : Type 0} (api : Proposals S) (context : Context) (n : ℕ) where
  Saved-Holds :
      (state : Requests) (r : Request) (pending : List ℕ) (targets : List Target) (w w' : World S)
      → get_request n w.saved ≡ some r
      → Saved api context state n r pending targets w w'
      → (q : Request) × (get_request n w'.saved ≡ some q) × (q.qa ≡ r.qa)
  Saved-Holds state r pending targets w w' start (Saved.untouched e) =
      (r, ap (get_request n) e ∙ start, refl)
  Saved-Holds state r pending targets w w' start (Saved.saved t e same) =
      put-Holds n (record r { targets = t }) state w'.saved r.qa e refl

  sent_payload-Holds :
      (state : Requests) (r : Request) (pending : List ℕ) (targets : List Target) (w : World S)
      → get_request n w.saved ≡ some r
      → (o : Option (Result (List Target) × World S)) → is_some o ≡ true
      → Leaves api context state n r pending targets w o
      → Holds n r.qa (sent_payload api context o)
  sent_payload-Holds state r pending targets w start none some_there leaves = some_there
  sent_payload-Holds state r pending targets w start (some (err e, w')) some_there leaves =
      Saved-Holds state r pending targets w w' start leaves
  sent_payload-Holds state r pending targets w start (some (ok t, w')) some_there (leaves, same) =
      Saved-Holds state r pending targets w w' start leaves

  -- The targets were prepared before anything was saved, or are saved with the request.
  send_prepared-Holds :
      (r : Request) (prepared : Result (List Target)) (w : World S)
      → get_request n w.saved ≡ some r
      → Holds n r.qa (send_prepared api context w.saved n r prepared w)
  unfolding send_prepared
  send_prepared-Holds r (err e) w start = (r, start, refl)
  send_prepared-Holds r (ok targets) w start =
      let r' = routing targets r in
      let state' = put_request n r' w.saved in
      let waiting = pending_from 0 targets in
      let refs = sent_refs 0 targets in
      let w' : World S = record w { saved = state' } in
      let self : eqb n n ≡ true = ground arith in
      sent_payload-Holds state' r' waiting targets w'
        (get_request-put n n r' w.saved ∙ rw self refl)
        (send_pending_route_targets api context state' n r' targets w')
        (send_rounds_total api context state' n r' (length targets) waiting targets refs w'
          (length-pending_from 0 targets))
        (send_rounds-Leaves api context state' n r' (length targets) waiting waiting targets refs w'
          (λ m h. h))

  act_on-Holds :
      (r : Request) (decision : RouterDecision) (w : World S)
      → get_request n w.saved ≡ some r
      → Holds n r.qa (act_on api context w.saved n r decision w)
  unfolding act_on send_route_targets save_request
  act_on-Holds r decision w start = elim (Bool-cases (decision.decision == "clarify")) [
    | inl asks ↦ rw asks (put-Holds n (clarified decision r) w.saved _ r.qa refl refl)
    | inr other ↦ elim (Bool-cases (decision.decision == "reject")) [
      | inl rejects ↦
          rw (other, rejects) (put-Holds n (rejected decision r) w.saved _ r.qa refl refl)
      | inr routes ↦
          rw (other, routes)
            (send_prepared-Holds r (prepared_targets r.targets decision.targets) w start)
    ]
  ]

  decide_with-Holds :
      (router : String → List Qa → Bool → Result RouterDecision) (r : Request) (w : World S)
      → get_request n w.saved ≡ some r
      → Holds n r.qa (decide_with api context router w.saved n r r.qa false w)
  unfolding decide_with handle_decision
  decide_with-Holds router r w start =
      elim (Result-cases (router r.original_text r.qa (at_limit api context r.qa))) [
        | inr (e, failed) ↦ rw (failed, decide_with) ((r, start, refl))
        | inl (decision, answered) ↦
            rw (answered, decide_with)
              (act_on-Holds r (limited (at_limit api context r.qa) decision) w start)
      ]

-- With a router configured and no dry run, an answer to a question before the routing is saved with the rounds
-- before it, whatever the router and
-- the API answer then; the command ends.
pub run_pre_routing_answer-Holds :
    {S : Type 0} (api : Proposals S) (context : Context)
    (router : String → List Qa → Bool → Result RouterDecision) (state : Requests) (n : ℕ)
    (r : Request) (question answer : String) (w : World S)
    → is_empty context.router_agent ≡ false
    → Holds n
        (qa_pairs r.qa ++ (record { question = question; answer = strip answer } ∷ []))
        (run_pre_routing_answer api context router state n r question answer false w)
unfolding run_pre_routing_answer
run_pre_routing_answer-Holds api context router state n r question answer w configured =
    let qa = qa_pairs r.qa ++ (record { question = question; answer = strip answer } ∷ []) in
    let r' : Request = record r { qa = qa; pending_question = "" } in
    let self : eqb n n ≡ true = ground arith in
    rw configured (
      decide_with-Holds api context n router r' (record w { saved = put_request n r' state })
        (get_request-put n n r' state ∙ rw self refl))
