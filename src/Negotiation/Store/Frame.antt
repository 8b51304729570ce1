-- ===== src/Negotiation/Store/Frame.antt =====
-- What the calls of the negotiation store leave alone.
use issuekit.Prelude.{String, ◌≡◌, refl, Option, some, ok, arith}
use issuekit.Prelude.Dict.{get-put_self}
use issuekit.Negotiation.Model.{ThreadStatus, NegotiationIssueRefs}
use issuekit.Negotiation.Store.{
  MockNegotiationStore, set_status, set_status_checks, set_status_body, settle_thread_members,
  ensure_thread, set_issue_refs, set_refs_checks, set_refs_body, get_status, get_issue_refs,
  persist,
}
use issuekit.Negotiation.Store.Order.{get_thread}
use issuekit.Negotiation.Store.Checks.{after_checks_keeps, after_checks-ok}

pub set_status-threads :
    (k : String) (next : ThreadStatus) (contract : Option String) (s : MockNegotiationStore)
    → (set_status k next contract s).1.threads ≡ s.threads
unfolding set_status set_status_body persist
set_status-threads k next contract s =
    after_checks_keeps (λ u. u.threads ≡ s.threads) (set_status_checks s.now k next contract)
      (set_status_body k next contract) s refl (λ _ _. refl)

pub settle_thread_members-state :
    (k : String) (s : MockNegotiationStore) → (settle_thread_members k s).1 ≡ s
unfolding settle_thread_members
settle_thread_members-state k s =
    after_checks_keeps (λ u. u ≡ s) (ensure_thread s.now k) (λ _ t. (ok tt, t)) s refl (λ _ _. refl)

pub get_thread-threads :
    (k : String) (s s' : MockNegotiationStore)
    → s'.threads ≡ s.threads
    → get_thread k s' ≡ get_thread k s
unfolding get_thread ensure_thread
get_thread-threads k s s' same = rw same refl

-- A thread whose status can be read can be settled.
pub settle_thread_members-ok :
    (k : String) (s : MockNegotiationStore) {status : ThreadStatus}
    → get_status k s ≡ ok status
    → settle_thread_members k s ≡ (ok tt, s)
unfolding settle_thread_members get_status ensure_thread
settle_thread_members-ok k s {status} h = ground arith

-- References are set on an agreed thread, and nothing else changes.
pub set_issue_refs-ok :
    (k : String) (refs : NegotiationIssueRefs) (s : MockNegotiationStore)
    → (set_issue_refs k refs s).0 ≡ ok tt
    → (get_status k s ≡ ok ThreadStatus.agreed)
      × (get_status k (set_issue_refs k refs s).1 ≡ ok ThreadStatus.agreed)
      × ((set_issue_refs k refs s).1.threads ≡ s.threads)
      × (get_issue_refs k (set_issue_refs k refs s).1 ≡ ok (some refs))
unfolding set_issue_refs set_refs_body set_refs_checks ensure_thread get_status get_issue_refs
    persist
set_issue_refs-ok k refs s h =
    let (_, checked, _, state) =
      after_checks-ok (set_refs_checks s.now k refs) (λ _. set_refs_body k refs) s h in
    (
      ground arith,
      rw state (ground arith),
      rw state refl,
      rw state (ground (arith, get-put_self k refs s.issue_refs)),
    )
