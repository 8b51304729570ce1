-- ===== src/Negotiation/Finalize/Linked.antt =====
-- The two issues of a finalized negotiation name each other.
use Prim.Native.String.{◌++◌}
use text.Mathlib.TextLemmas.{nil-append, cons-append}
use issuekit.Prelude.{
  ℕ, ◌+◌, String, ◌≡◌, refl, ◌≢◌, Option, some, List, [], ◌∷◌, ok, err, arith, ◌∙◌, ap, sym, eq_iff,
}
use issuekit.Prelude.Dict.{get, put, get-put, get-put_self}
use issuekit.Prelude.Decimal.{show, show-injective, show-no_sharp}
use issuekit.Prelude.Text.{rcut, rcut-append}
use issuekit.Negotiation.Model.{NegotiationEntry, NegotiationIssueRefs}
use issuekit.Negotiation.Thread.{other_side, provider_side, consumer_side}
use issuekit.Negotiation.Prompts.{provider_issue_body, consumer_issue_body}
use issuekit.Negotiation.Finalize.{
  Issue, Request, project_of, origin_issue_ref_from_thread, provider_draft, consumer_draft,
  require_issue_id, link, create_consumer, create_provider, create_issue_pair,
}
use issuekit.Negotiation.Finalize.Creator.{
  MockIssueCreator, mock_creator, issue_ref, next_id, new_issue, create_issue, update_issue_body,
}

issue_ref-cut : (p : String) (n : ℕ) → rcut b'#' (issue_ref p n) ≡ some (p, show n)
unfolding issue_ref
issue_ref-cut p n =
    rw (cons-append, nil-append) (rcut-append b'#' "#" p (show n) refl (show-no_sharp n))

-- A reference names one issue of one project.
issue_ref-injective : (p q : String) (n m : ℕ) → issue_ref p n ≡ issue_ref q m → (p ≡ q) × (n ≡ m)
issue_ref-injective p q n m e =
    let parts : ◌≡◌ {A = Option (String × String)} (some (p, show n)) (some (q, show m)) =
      sym (issue_ref-cut p n) ∙ ap (rcut b'#') e ∙ issue_ref-cut q m in
    (cc parts, show-injective n m (cc parts))

module _ (r : Request) (k initiator : String) (origin : Option String) (contract : String) where
  -- The two issues of the references stand in the creator, each names the other in its body, and the
  -- consumer's issue depends on the provider's.
  pub record IsLinked (refs : NegotiationIssueRefs) (c : MockIssueCreator) : Type 0 where
    pub provider : Issue
    pub consumer : Issue
    pub id : ℕ
    pub backend : get refs.backend_issue_ref c.issues ≡ some provider
    pub frontend : get refs.frontend_issue_ref c.issues ≡ some consumer
    pub provider_body :
        provider.body ≡ provider_issue_body k origin refs.frontend_issue_ref contract
    pub consumer_body : consumer.body ≡ consumer_issue_body k origin refs.backend_issue_ref contract
    pub named : refs.backend_issue_ref ≡ issue_ref (project_of r initiator provider_side) id
    pub depends :
        consumer.depends_on ≡ (project_of r initiator provider_side ++ ("#issue:" ++ show id)) ∷ []

  abbrev p : String
  p = project_of r initiator provider_side

  abbrev q : String
  q = project_of r initiator consumer_side

  abbrev provider_of : MockIssueCreator → Issue
  provider_of c = new_issue (provider_draft r k initiator origin contract) (next_id p c)

  abbrev with_provider : MockIssueCreator → MockIssueCreator
  with_provider c = (create_issue (provider_draft r k initiator origin contract) c).1

  abbrev consumer_of : MockIssueCreator → Issue
  consumer_of c =
      new_issue (consumer_draft r k initiator origin contract (provider_of c) (next_id p c))
        (next_id q (with_provider c))

  abbrev with_both : MockIssueCreator → MockIssueCreator
  with_both c =
      (create_issue (consumer_draft r k initiator origin contract (provider_of c) (next_id p c))
        (with_provider c)).1

  refs_apart :
      (c : MockIssueCreator) → issue_ref p (next_id p c) ≢ issue_ref q (next_id q (with_provider c))
  unfolding create_issue next_id provider_draft
  refs_apart c e =
      let (same, ids) = issue_ref-injective p q (next_id p c) (next_id q (with_provider c)) e in
      ground (arith, get-put p q (next_id p c + 1) c.next_ids, eq_iff p q)

  stored_provider :
      (c : MockIssueCreator)
      → get (issue_ref p (next_id p c)) (with_both c).issues ≡ some (provider_of c)
  unfolding create_issue new_issue provider_draft consumer_draft
  stored_provider c =
      let P = issue_ref p (next_id p c) in
      let Q = issue_ref q (next_id q (with_provider c)) in
      let inner = get-put P P (provider_of c) c.issues in
      let outer = get-put Q P (consumer_of c) (put P (provider_of c) c.issues) in
      let apart = refs_apart c in ground (arith, eq_iff Q P, eq_iff P P)

  -- After the provider's issue is updated, both issues are found.
  abbrev updated_issue : MockIssueCreator → Issue
  updated_issue c = record (provider_of c) {
    body = provider_issue_body k origin (issue_ref q (next_id q (with_provider c))) contract;
  }

  link_update :
      (c : MockIssueCreator)
      → update_issue_body p
          (next_id p c)
          (provider_issue_body k origin (issue_ref q (next_id q (with_provider c))) contract)
          (with_both c)
        ≡ (
          ok (updated_issue c),
          record (with_both c) {
            issues = put (issue_ref p (next_id p c)) (updated_issue c) (with_both c).issues;
          },
        )
  unfolding update_issue_body
  link_update c = rw (stored_provider c, update_issue_body) refl

  abbrev refs_of : MockIssueCreator → NegotiationIssueRefs
  refs_of c = record {
    backend_issue_ref = issue_ref p (next_id p c);
    frontend_issue_ref = issue_ref q (next_id q (with_provider c));
  }

  abbrev finished : MockIssueCreator → MockIssueCreator
  finished c = record (with_both c) {
    issues = put (issue_ref p (next_id p c)) (updated_issue c) (with_both c).issues;
  }

  stored_both :
      (c : MockIssueCreator)
      → get (issue_ref p (next_id p c)) (finished c).issues ≡ some (updated_issue c)
  stored_both c = get-put_self (issue_ref p (next_id p c)) (updated_issue c) (with_both c).issues

  stored_consumer :
      (c : MockIssueCreator)
      → get (issue_ref q (next_id q (with_provider c))) (finished c).issues ≡ some (consumer_of c)
  unfolding create_issue new_issue provider_draft consumer_draft
  stored_consumer c =
      let P = issue_ref p (next_id p c) in
      let Q = issue_ref q (next_id q (with_provider c)) in
      let inner = get-put_self Q (consumer_of c) (put P (provider_of c) c.issues) in
      let outer =
        get-put P Q (updated_issue c) (put Q (consumer_of c) (put P (provider_of c) c.issues)) in
      let apart = refs_apart c in ground (arith, eq_iff P Q, eq_iff Q Q)

  finished-IsLinked : (c : MockIssueCreator) → IsLinked (refs_of c) (finished c)
  unfolding new_issue provider_draft consumer_draft
  finished-IsLinked c = record {
    provider = updated_issue c;
    consumer = consumer_of c;
    id = next_id p c;
    backend = stored_both c;
    frontend = stored_consumer c;
    provider_body = refl;
    consumer_body = refl;
    named = refl;
    depends = refl;
  }

  link-mock :
      (c : MockIssueCreator)
      → link mock_creator r k initiator origin contract
          (provider_of c)
          (next_id p c)
          (consumer_of c)
          (with_both c)
        ≡ (ok (refs_of c), finished c)
  unfolding link new_issue consumer_draft provider_draft
  link-mock c =
      ap (λ t. elim t.0 [ err e ↦ (err e, t.1) | ok _ ↦ (ok (refs_of c), t.1) ]) (link_update c)

  create_provider-mock :
      (c : MockIssueCreator)
      → create_provider mock_creator r k initiator origin contract c ≡ (ok (refs_of c), finished c)
  unfolding create_provider create_consumer create_issue new_issue require_issue_id provider_draft
      project_of consumer_draft
  create_provider-mock c = link-mock c

-- An agreed thread whose first side is known gets its pair of linked issues from the creator that
-- keeps issues in memory, whatever the creator held before.
pub create_issue_pair-IsLinked :
    (r : Request) (k contract counterpart : String) (first : NegotiationEntry)
    (thread : List NegotiationEntry) (c : MockIssueCreator)
    → other_side first.side ≡ ok counterpart
    → (refs : NegotiationIssueRefs) × (c' : MockIssueCreator) × (create_issue_pair mock_creator r k
          (first ∷ thread)
          contract
          c
        ≡ (ok refs, c'))
      × IsLinked r k first.side (origin_issue_ref_from_thread (first ∷ thread)) contract refs c'
unfolding create_issue_pair
create_issue_pair-IsLinked r k contract counterpart first thread c h =
    let origin = origin_issue_ref_from_thread (first ∷ thread) in
    (
      refs_of r k first.side origin contract c,
      finished r k first.side origin contract c,
      rw (h, create_issue_pair) (create_provider-mock r k first.side origin contract c),
      finished-IsLinked r k first.side origin contract c,
    )
