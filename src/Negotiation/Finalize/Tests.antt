-- ===== src/Negotiation/Finalize/Tests.antt =====
-- The issues of the negotiation that ended agreed.
use issuekit.Prelude.{◌≡◌, refl, true, false, [], ◌∷◌, ok}
use issuekit.Prelude.Dict.{get, put}
use issuekit.Prelude.Decimal.{show}
use issuekit.Prelude.Text.{strip, cut}
use issuekit.Negotiation.Model.{NegotiationIssueRefs}
use issuekit.Negotiation.Thread
use issuekit.Negotiation.Store
use issuekit.Negotiation.Store.Order
use issuekit.Negotiation.Tests.{settled, proposed, agreement}
use issuekit.Negotiation.Finalize.{
  Request, NegotiationFinalizationResult, finalize_negotiation, finalization_result,
  create_issue_pair, origin_issue_ref_from_thread, require_finalizable, require_supported,
  current_status, require_agreed, after_refs, open_issues, contract_of, create_provider,
  create_consumer, link, provider_draft, consumer_draft, project_of, require_issue_id,
  record_issue_refs, settle_status,
}
use issuekit.Negotiation.Finalize.Creator.{
  MockIssueCreator, mock_creator, issue_ref, next_id, new_issue, create_issue, update_issue_body,
}
use issuekit.Negotiation.Finalize.Final.{
  IsFinal, refs_of, finalize_negotiation-IsFinal, finalize_negotiation_again,
}
use issuekit.Negotiation.Finalize.Linked.{IsLinked, create_issue_pair-IsLinked}

abbrev request : Request
request = record {
  sha256 = λ s. s;
  project = "backend";
  to_project = "web";
  author_agent = "codex";
  priority = "medium";
}

abbrev no_issues : MockIssueCreator
no_issues = record { next_ids = []; issues = [] }

abbrev finalized : NegotiationFinalizationResult
finalized = record {
  thread_id = "1";
  backend_issue_ref = "backend#1";
  frontend_issue_ref = "web#1";
  created = true;
}

settled-finalized :
    (finalize_negotiation mock_creator request "1" settled no_issues).0 ≡ ok finalized
unfolding finalize_negotiation finalization_result create_issue_pair origin_issue_ref_from_thread
    require_finalizable require_supported current_status require_agreed after_refs open_issues
    contract_of create_provider create_consumer link provider_draft consumer_draft project_of
    require_issue_id record_issue_refs settle_status issue_ref next_id new_issue create_issue
    update_issue_body get put show strip cut Order.get_thread Order.sort_entries Store.get_status
    Store.ensure_thread Store.get_issue_refs Store.get_agreed_contract Store.set_issue_refs
    Store.set_refs_checks Store.set_refs_body Store.agreed_contract_of Store.settle_thread_members
    Store.persist Thread.other_side Thread.require_supported_thread
settled-finalized = refl

finalize_negotiation-IsFinal_example :
    IsFinal "1"
      (refs_of finalized)
      (finalize_negotiation mock_creator request "1" settled no_issues).1
finalize_negotiation-IsFinal_example =
    finalize_negotiation-IsFinal mock_creator request "1" settled no_issues settled-finalized

finalize_negotiation_again_example :
    finalize_negotiation mock_creator request "1"
      (finalize_negotiation mock_creator request "1" settled no_issues).1
      no_issues
    ≡ (
      ok (finalization_result mock_creator request "1" (refs_of finalized) false),
      (finalize_negotiation mock_creator request "1" settled no_issues).1,
      no_issues,
    )
finalize_negotiation_again_example =
    finalize_negotiation_again mock_creator mock_creator request request "1" settled no_issues
      no_issues settled-finalized

proposed-side : Thread.other_side proposed.side ≡ ok "consumer"
unfolding Thread.other_side
proposed-side = refl

create_issue_pair-IsLinked_example :
    (refs : NegotiationIssueRefs) × (c : MockIssueCreator) × (create_issue_pair mock_creator request
        "1"
        (proposed ∷ agreement ∷ [])
        "GET /users"
        no_issues
      ≡ (ok refs, c))
    × IsLinked request "1" proposed.side
        (origin_issue_ref_from_thread (proposed ∷ agreement ∷ []))
        "GET /users"
        refs
        c
create_issue_pair-IsLinked_example =
    create_issue_pair-IsLinked request "1" "GET /users" "consumer" proposed (agreement ∷ [])
      no_issues proposed-side
