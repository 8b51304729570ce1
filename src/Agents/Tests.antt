-- ===== src/Agents/Tests.antt =====
-- A routing to one project, whose target depends on an issue.
use issuekit.Prelude.{◌≡◌, refl, false, [], ◌∷◌, ok}
use issuekit.Prelude.Text.{strip, cut, lowers_to, has_non_ascii}
use issuekit.Config.{has}
use issuekit.Agents.Json.{
  Json, Items, Members, get_key, require_nonempty_text, canonical_contract_token, find_canonical,
  drop_separators,
}
use issuekit.Agents.Router.{
  RouterDecision, decision_from_json, decide, route_decision, count_items, parse_targets,
  parse_target, blocking_of, parse_dependency_tuple, without_repeats, parse_references,
  check_reference, placeholder_index, after_kind, is_dependency_ref, is_dependency_number,
  is_number, all_chars,
}
use issuekit.Agents.Router.Routed.{IsRoute, decision_from_json-IsRoute}
use issuekit.Agents.Review.{
  ReviewVerdict, review_verdict_from_json, has_key, require_str, canonical_verdict, review_field,
  required_review_text, sanitize_ascii_field,
}
use issuekit.Agents.Review.Verdict.{IsVerdict, review_verdict_from_json-IsVerdict}

abbrev answer : Members
answer = Members.member "decision" (Json.text " Route") (
    Members.member "targets"
      (Json.array (
        Items.item
          (Json.object (
            Members.member "project" (Json.text "web") (
              Members.member "title" (Json.text "Show users") (
                Members.member "body" (Json.text "A list.")
                  (Members.member "depends_on" (Json.text "api#issue:3") Members.no_members)))))
          Items.no_items))
      Members.no_members)

abbrev routed : RouterDecision
routed = record {
  decision = "route";
  targets =
      record {
        project = "web";
        title = "Show users";
        body = "A list.";
        blocking = false;
        depends_on = "api#issue:3" ∷ [];
      }
      ∷ [];
  question = "";
  reason = "";
}

answer-routed : decision_from_json ("web" ∷ []) 3 answer ≡ ok routed
unfolding decision_from_json decide route_decision count_items parse_targets parse_target
    blocking_of parse_dependency_tuple without_repeats parse_references check_reference
    placeholder_index after_kind is_dependency_ref is_dependency_number is_number all_chars get_key
    require_nonempty_text canonical_contract_token find_canonical drop_separators strip cut
    lowers_to has
answer-routed = refl

decision_from_json-IsRoute_example : IsRoute ("web" ∷ []) 3 routed.targets
decision_from_json-IsRoute_example =
    decision_from_json-IsRoute ("web" ∷ []) 3 answer answer-routed refl

abbrev review : Members
review = Members.member "verdict" (Json.text "APPROVE") (
    Members.member "verification" (Json.text "Ran the tests. ")
      (Members.member "notes" (Json.text "") Members.no_members))

abbrev approval : ReviewVerdict
approval = record { verdict = "approve"; verification = "Ran the tests."; notes = "" }

review-approval : review_verdict_from_json (λ s. s) review ≡ ok approval
unfolding review_verdict_from_json has_key require_str canonical_verdict review_field
    required_review_text sanitize_ascii_field has_non_ascii strip get_key canonical_contract_token
    find_canonical drop_separators lowers_to
review-approval = refl

review_verdict_from_json-IsVerdict_example : IsVerdict approval
review_verdict_from_json-IsVerdict_example =
    review_verdict_from_json-IsVerdict (λ s. s) review review-approval
