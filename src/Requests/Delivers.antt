-- ===== src/Requests/Delivers.antt =====
-- About commands/request/routing.py with agents/router.py: from the JSON of an answer to the sending of its targets.
use issuekit.Prelude.{
  ℕ, String, ◌≡◌, refl, Bool, true, false, some, List, [], ◌==◌, ap, ◌∙◌, ok, err, Error, inl, inr,
  ◌⊎◌,
}
use issuekit.Agents.Json.{Members}
use issuekit.Agents.Router.{RouterDecision, decision_from_json}
use issuekit.Agents.Router.Routed.{decision_from_json-IsRoute}
use issuekit.Requests.State.{Target, Request, Requests, all_sent, put_request}
use issuekit.Requests.Routing.{
  Proposals, World, Context, prepared_targets, send_pending_route_targets,
}
use issuekit.Requests.Routing.Delivery.{Refused}
use issuekit.Requests.Routing.Delivered.{send_pending_route_targets-ends}
use issuekit.Requests.Decide.{
  Payload, limited, routing, sent_payload, send_prepared, send_route_targets, act_on,
  handle_decision,
}
use issuekit.Requests.Prepared.{prepared_targets-Earlier}

limited_route : (force : Bool) (d : RouterDecision) → d.decision ≡ "route" → limited force d ≡ d
unfolding limited
limited_route force d routed =
    let e : (d.decision == "clarify") ≡ false = ap (λ s. s == "clarify") routed in rw e refl

module _ {S : Type 0} (api : Proposals S) (context : Context) where
  act_on_route :
      (state : Requests) (n : ℕ) (r : Request) (d : RouterDecision) (saved : List Target)
      (w : World S)
      → d.decision ≡ "route"
      → r.targets ≡ []
      → prepared_targets [] d.targets ≡ ok saved
      → act_on api context state n r d w
        ≡ sent_payload api context (
            send_pending_route_targets api context
              (put_request n (routing saved r) state)
              n
              (routing saved r)
              saved
              (record w { saved = put_request n (routing saved r) state }))
  unfolding act_on send_route_targets send_prepared
  act_on_route state n r d saved w routed untargeted prepared =
      let e : (d.decision == "clarify") ≡ false = ap (λ s. s == "clarify") routed in
      let f : (d.decision == "reject") ≡ false = ap (λ s. s == "reject") routed in
      rw (e, f)
        (ap (λ targets. send_prepared api context state n r (prepared_targets targets d.targets) w)
            untargeted
          ∙ ap (λ made. send_prepared api context state n r made w) prepared)

-- An answer that is accepted as a routing, for a request without targets, has all its targets sent, or the
-- command ends with an error: of building the proposal of one of the targets, with the references that were
-- known or answered, of the API when it was sent,
-- or because it differs from a pending one. The targets can be saved, and it is no dry run.
pub handle_decision-ends :
    {S : Type 0} (api : Proposals S) (context : Context) (candidates : List String)
    (max_targets : ℕ) (raw : Members) (d : RouterDecision) (state : Requests) (n : ℕ) (r : Request)
    (saved : List Target) (force : Bool) (w : World S)
    → decision_from_json candidates max_targets raw ≡ ok d
    → d.decision ≡ "route"
    → r.targets ≡ []
    → prepared_targets [] d.targets ≡ ok saved
    → ((targets : List Target) × (w' : World S) × (handle_decision api context state n r d false
            force w
          ≡ some (ok (Payload.routed targets), w'))
        × (all_sent targets ≡ true))
      ⊎ ((e : Error) × (w' : World S) × (handle_decision api context state n r d false force w
            ≡ some (err e, w'))
          × Refused api context saved e)
unfolding handle_decision
handle_decision-ends api context candidates max_targets raw d state n r saved force w accepted
      routed untargeted prepared =
    let route = decision_from_json-IsRoute candidates max_targets raw accepted routed in
    let state' = put_request n (routing saved r) state in
    let acts =
      ap (λ decision. act_on api context state n r decision w) (limited_route force d routed)
      ∙ act_on_route api context state n r d saved w routed untargeted prepared in
    elim (send_pending_route_targets-ends api context state' n (routing saved r) saved
      (record w { saved = state' })
      (prepared_targets-Earlier candidates d.targets saved route.each prepared)) [
        | inl (targets, w', sent, all) ↦
            inl (targets, w', acts ∙ ap (sent_payload api context) sent, all)
        | inr (e, w', stopped, refused) ↦
            inr (e, w', acts ∙ ap (sent_payload api context) stopped, refused)
      ]
