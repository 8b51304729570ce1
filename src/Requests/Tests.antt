-- ===== src/Requests/Tests.antt =====
-- Concrete runs of the requests.
use issuekit.Prelude.{
  ℕ, ◌+◌, ◌++◌, ◌<◌, String, ◌≡◌, refl, Bool, true, false, some, List, [], ◌∷◌, Result, ok, err,
  proposal_error, Error, ◌⊎◌, length, is_empty,
}
use issuekit.Prelude.Text.{strip, cut, lowers_to}
use issuekit.Prelude.Decimal.{show, read_after}
use issuekit.Config.{has}
use issuekit.Agents.Json.{
  Json, Items, Members, get_key, require_nonempty_text, canonical_contract_token, find_canonical,
  drop_separators,
}
use issuekit.Agents.Router.{
  RouteTarget, RouterDecision, decision_from_json, decide, route_decision, count_items,
  parse_targets, parse_target, blocking_of, parse_dependency_tuple, without_repeats,
  parse_references, check_reference, placeholder_index, after_kind, is_dependency_ref,
  is_dependency_number, is_number, all_chars,
}
use issuekit.Requests.State.{
  Qa, Target, Request, all_sent, get_request, put_request, find_or_create_request, qa_pairs,
  new_request, find_open, greatest_id, target_state,
}
use issuekit.Requests.Found.{IsFound, find_or_create_request-IsFound}
use issuekit.Requests.Routing.{
  Proposals, World, Context, target_at, prepared_targets, send_pending_route_targets,
  route_target_indexes, saved_indexes, routed_indexes, project_index, new_targets, saved_references,
  saved_target_reference,
}
use issuekit.Requests.Routing.Delivery.{Refused}
use issuekit.Requests.Routing.Lasting.{Keeps, send_pending_route_targets-Keeps}
use issuekit.Requests.Decide.{
  Payload, handle_decision, run_new_request, decide_with, act_on, limited, save_request,
}
use issuekit.Requests.Answer.{run_pre_routing_answer}
use issuekit.Requests.Answered.{Holds, run_pre_routing_answer-Holds}
use issuekit.Requests.Clarify.{asked, run_new_request-asked}
use issuekit.Requests.Delivers.{handle_decision-ends}

-- An API that takes every proposal and counts them.
abbrev counting : Proposals ℕ
counting = record {
  structured_refs = λ body. [];
  send_proposal =
      λ d s. (ok (record { id = show s; dependency_ref = ""; payload_mismatch = false }), s + 1);
  get_proposal = λ project id s. (ok "pending", s);
  discard_proposal = λ id s. (ok tt, s);
}

-- An API that refuses every proposal.
abbrev refusing : Proposals ℕ
refusing = record {
  structured_refs = λ body. [];
  send_proposal = λ d s. (err proposal_error, s);
  get_proposal = λ project id s. (err proposal_error, s);
  discard_proposal = λ id s. (err proposal_error, s);
}

abbrev checkout : Context
checkout = record {
  api_url = some "http://api";
  project = "pm";
  short_head = some "abc";
  max_clarify_rounds = 2;
  router_agent = "router";
}

abbrev waiting : String → List String → Target
waiting project depends_on = record {
  project = project;
  title = "T";
  body = "B";
  blocking = false;
  depends_on = depends_on;
  proposal_ref = "";
  dependency_ref = "";
  proposal_id = "";
  status = "";
  clarifications = [];
}

abbrev sent_web : Target
sent_web = record (waiting "web" []) { proposal_ref = "web#1"; proposal_id = "1" }

abbrev half_sent : List Target
half_sent = sent_web ∷ waiting "api" ("target:0" ∷ []) ∷ []

abbrev request_of : List Target → Request
request_of targets = record (new_request "do it") { decision = "route"; targets = targets }

abbrev start : World ℕ
start = record { saved = []; api = 7 }

sent_web-named : is_empty (strip "web#1") ≡ false
unfolding strip
sent_web-named = refl

send_pending_route_targets-Keeps_example :
    (outcome : Result (List Target)) × (w' : World ℕ) × (send_pending_route_targets refusing
        checkout [] 1
        (request_of half_sent)
        half_sent
        start
      ≡ some (outcome, w'))
    × Keeps [] 1 (request_of half_sent) 0 sent_web start w'
unfolding target_at
send_pending_route_targets-Keeps_example =
    send_pending_route_targets-Keeps refusing checkout [] 1 (request_of half_sent) half_sent start 0
      sent_web refl sent_web-named

find_or_create_request-IsFound_example :
    IsFound "do it" 1
      (request_of half_sent)
      (find_or_create_request ((1, request_of half_sent) ∷ []) "do it")
unfolding get_request
find_or_create_request-IsFound_example =
    find_or_create_request-IsFound "do it" 1 (request_of half_sent) ((1, request_of half_sent) ∷ [])
      (refl, tt) refl

-- A router that asks.
abbrev asking : String → List Qa → Bool → Result RouterDecision
asking text qa force =
    ok (record { decision = "clarify"; targets = []; question = "Which?"; reason = "" })

asking-ends :
    run_new_request counting checkout asking "do it" false start
    ≡ some (
      ok (Payload.clarify "Which?"),
      record start { saved = (1, asked "Which?" (new_request "do it")) ∷ [] },
    )
unfolding run_new_request find_or_create_request find_open greatest_id decide_with handle_decision
    act_on limited save_request put_request qa_pairs new_request
asking-ends = refl

run_new_request-asked_example :
    (length (qa_pairs (find_or_create_request [] "do it").1.qa) < 2)
    × (get_request
          (find_or_create_request [] "do it").0
          ((1, asked "Which?" (new_request "do it")) ∷ [])
        ≡ some (asked "Which?" (find_or_create_request [] "do it").1))
run_new_request-asked_example =
    run_new_request-asked counting checkout asking "do it" false start
      (record start { saved = (1, asked "Which?" (new_request "do it")) ∷ [] }) "Which?" asking-ends

abbrev json_target : String → String → Json
json_target project depends_on = Json.object (
    Members.member "project" (Json.text project) (
      Members.member "title" (Json.text "T") (
        Members.member "body" (Json.text "B")
          (Members.member "depends_on" (Json.text depends_on) Members.no_members))))

abbrev reply_json : Members
reply_json = Members.member "decision" (Json.text "route") (
    Members.member "targets"
      (Json.array (
        Items.item (json_target "web" "web#3")
          (Items.item (json_target "api" "target:0") Items.no_items)))
      Members.no_members)

abbrev route_to : String → String → RouteTarget
route_to project ref = record {
  project = project;
  title = "T";
  body = "B";
  blocking = false;
  depends_on = ref ∷ [];
}

abbrev decision : RouterDecision
decision = record {
  decision = "route";
  targets = route_to "web" "web#3" ∷ route_to "api" "target:0" ∷ [];
  question = "";
  reason = "";
}

abbrev saved : List Target
saved = waiting "web" ("web#3" ∷ []) ∷ waiting "api" ("target:0" ∷ []) ∷ []

reply_json-decision : decision_from_json ("web" ∷ "api" ∷ []) 3 reply_json ≡ ok decision
unfolding decision_from_json decide route_decision count_items parse_targets parse_target
    blocking_of parse_dependency_tuple without_repeats parse_references check_reference
    placeholder_index after_kind is_dependency_ref is_dependency_number is_number all_chars get_key
    require_nonempty_text canonical_contract_token find_canonical drop_separators strip cut
    lowers_to has read_after
reply_json-decision = refl

decision-saved : prepared_targets [] decision.targets ≡ ok saved
unfolding prepared_targets route_target_indexes saved_indexes routed_indexes project_index
    new_targets saved_references saved_target_reference target_state placeholder_index after_kind
    is_number all_chars cut show read_after has
decision-saved = refl

handle_decision-ends_example :
    ((targets : List Target) × (w' : World ℕ) × (handle_decision counting checkout [] 1
          (new_request "do it")
          decision
          false
          false
          start
        ≡ some (ok (Payload.routed targets), w'))
      × (all_sent targets ≡ true))
    ⊎ ((e : Error) × (w' : World ℕ) × (handle_decision counting checkout [] 1
            (new_request "do it")
            decision
            false
            false
            start
          ≡ some (err e, w'))
        × Refused counting checkout saved e)
unfolding new_request
handle_decision-ends_example =
    handle_decision-ends counting checkout ("web" ∷ "api" ∷ []) 3 reply_json decision [] 1
      (new_request "do it") saved false start reply_json-decision refl refl decision-saved

-- A router that does not answer.
abbrev failing : String → List Qa → Bool → Result RouterDecision
failing text qa force = err proposal_error

run_pre_routing_answer-Holds_example :
    Holds 1
      (qa_pairs (new_request "do it").qa
        ++ (record { question = "Which?"; answer = strip "Web." } ∷ []))
      (run_pre_routing_answer counting checkout failing [] 1
        (new_request "do it")
        "Which?"
        "Web."
        false
        start)
run_pre_routing_answer-Holds_example =
    run_pre_routing_answer-Holds counting checkout failing [] 1 (new_request "do it") "Which?"
      "Web." start refl
