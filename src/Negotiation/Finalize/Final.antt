-- ===== src/Negotiation/Finalize/Final.antt =====
-- Finalizing a thread records its issues, and finalizing it again gives the same ones.
use mathlib.Core.Path.{subst}
use issuekit.Prelude.{
  String, ◌≡◌, refl, Bool, true, false, Option, none, some, List, Result, ok, err, arith, ◌∙◌, ap,
  sym, inl, inr, Result-cases,
}
use issuekit.Negotiation.Model.{ThreadStatus, NegotiationEntry, NegotiationIssueRefs, is_agreed}
use issuekit.Negotiation.Thread.{
  require_supported_thread, evaluate_convergence, latest_contract, Outcome, negotiating, agreed,
  blocked, escalate,
}
use issuekit.Negotiation.Store.{
  MockNegotiationStore, get_status, get_issue_refs, get_agreed_contract, settle_thread_members,
  set_issue_refs, set_status,
}
use issuekit.Negotiation.Store.Order.{get_thread}
use issuekit.Negotiation.Store.Frame.{
  set_status-threads, settle_thread_members-state, get_thread-threads, settle_thread_members-ok,
  set_issue_refs-ok,
}
use issuekit.Negotiation.Engine.{bind, pure, read}
use issuekit.Negotiation.Engine.Round.{bind-ok}
use issuekit.Negotiation.Finalize.{
  IssueCreator, Request, NegotiationFinalizationResult, finalization_result, settle_status,
  current_status, require_agreed, require_supported, require_finalizable, create_issue_pair,
  record_issue_refs, recorded, open_issues, after_refs, finalize_negotiation, contract_of,
}

-- The thread is agreed, its entries can be read and are supported, and it has these issues.
pub record IsFinal (k : String) (refs : NegotiationIssueRefs) (s : MockNegotiationStore)
    : Type 0 where
  pub thread : List NegotiationEntry
  pub status : get_status k s ≡ ok ThreadStatus.agreed
  pub loaded : get_thread k s ≡ ok thread
  pub supported : require_supported_thread thread ≡ ok tt
  pub recorded_refs : get_issue_refs k s ≡ ok (some refs)

-- The thread can be finalized as it stands.
pub record IsFinalizable (k : String) (thread : List NegotiationEntry) (s : MockNegotiationStore)
    : Type 0 where
  pub status : get_status k s ≡ ok ThreadStatus.agreed
  pub loaded : get_thread k s ≡ ok thread
  pub supported : require_supported_thread thread ≡ ok tt

is_agreed-path : (t : ThreadStatus) → is_agreed t ≡ true → t ≡ ThreadStatus.agreed
is_agreed-path ThreadStatus.negotiating h = cc
is_agreed-path ThreadStatus.agreed h = refl
is_agreed-path ThreadStatus.blocked h = cc
is_agreed-path ThreadStatus.cancelled h = cc

module _ (sha256 : String → String) (k : String) where
  require_finalizable-final :
      (thread : List NegotiationEntry) (s : MockNegotiationStore)
      → IsFinalizable k thread s
      → require_finalizable sha256 k s ≡ (ok thread, s)
  unfolding require_finalizable require_supported current_status require_agreed
  require_finalizable-final thread s h =
      rw (h.status, h.loaded, require_supported, h.supported, current_status) refl

  settle_status-threads :
      (thread : List NegotiationEntry) (o : Outcome) (s : MockNegotiationStore)
      → (settle_status k thread o s).1.threads ≡ s.threads
  unfolding settle_status
  settle_status-threads thread negotiating s = refl
  settle_status-threads thread agreed s =
      set_status-threads k ThreadStatus.agreed (latest_contract thread) s
  settle_status-threads thread blocked s =
      let first = set_status-threads k ThreadStatus.blocked none s in
      elim (Result-cases (set_status k ThreadStatus.blocked none s).0) [
        | inl (u, done) ↦ rw done (
            ap (λ (t : MockNegotiationStore). t.threads)
              (settle_thread_members-state k (set_status k ThreadStatus.blocked none s).1)
            ∙ first)
        | inr (e, failed) ↦ rw failed first
      ]
  settle_status-threads thread escalate s = refl

  current_status-ok :
      (thread : List NegotiationEntry) (status : ThreadStatus) (s : MockNegotiationStore)
      {now : ThreadStatus}
      → get_status k s ≡ ok status
      → (current_status sha256 k thread status s).0 ≡ ok now
      → (get_status k (current_status sha256 k thread status s).1 ≡ ok now)
        × ((current_status sha256 k thread status s).1.threads ≡ s.threads)
  unfolding current_status
  current_status-ok thread ThreadStatus.negotiating s {now} old h =
      let settling = settle_status k thread (evaluate_convergence sha256 thread) in
      let (_, _, found, state) = bind-ok settling (λ _. read (get_status k)) s h in
      (
        rw state found,
        ap (λ (t : MockNegotiationStore). t.threads) state
            ∙ settle_status-threads thread (evaluate_convergence sha256 thread) s,
      )
  current_status-ok thread ThreadStatus.agreed s {now} old h = (cc, refl)
  current_status-ok thread ThreadStatus.blocked s {now} old h = (cc, refl)
  current_status-ok thread ThreadStatus.cancelled s {now} old h = (cc, refl)

  require_agreed-ok :
      (thread : List NegotiationEntry) (status : ThreadStatus) (s : MockNegotiationStore)
      {t : List NegotiationEntry}
      → (require_agreed thread status s).0 ≡ ok t
      → (status ≡ ThreadStatus.agreed) × (t ≡ thread) × ((require_agreed thread status s).1 ≡ s)
  unfolding require_agreed
  require_agreed-ok thread ThreadStatus.negotiating s {t} h = cc
  require_agreed-ok thread ThreadStatus.agreed s {t} h = (refl, cc, refl)
  require_agreed-ok thread ThreadStatus.blocked s {t} h = cc
  require_agreed-ok thread ThreadStatus.cancelled s {t} h = cc

  require_finalizable-ok :
      (s : MockNegotiationStore) {thread : List NegotiationEntry}
      → (require_finalizable sha256 k s).0 ≡ ok thread
      → IsFinalizable k thread (require_finalizable sha256 k s).1
  unfolding require_finalizable require_supported
  require_finalizable-ok s {thread} h =
      let (status, read_status, h₁, s₁) =
        bind-ok (read (get_status k))
          (λ status. bind (read (get_thread k)) (require_supported sha256 k status)) s h in
      let (t, loaded, h₂, s₂) =
        bind-ok (read (get_thread k)) (require_supported sha256 k status) s h₁ in
      let (_, supported, h₃, s₃) =
        bind-ok (read (λ _. require_supported_thread t))
          (λ _. bind (current_status sha256 k t status) (require_agreed t)) s h₂ in
      let (now, caught, h₄, s₄) =
        bind-ok (current_status sha256 k t status) (require_agreed t) s h₃ in
      let later = (current_status sha256 k t status s).1 in
      let (found, threads) = current_status-ok t status s read_status caught in
      let (is_now, same, s₅) = require_agreed-ok t now later h₄ in
      let state : (require_finalizable sha256 k s).1 ≡ later = s₁ ∙ s₂ ∙ s₃ ∙ s₄ ∙ s₅ in
      rw state (record {
        status = found ∙ ap ok is_now;
        loaded = get_thread-threads k s later threads ∙ loaded ∙ ap ok (sym same);
        supported = rw same supported;
      })

-- The references that a result reports.
abbrev pub refs_of : NegotiationFinalizationResult → NegotiationIssueRefs
refs_of result = record {
  backend_issue_ref = result.backend_issue_ref;
  frontend_issue_ref = result.frontend_issue_ref;
}

module _ {C : Type 0} (creator : IssueCreator C) (r : Request) (k : String) where
  refs_same :
      (refs : NegotiationIssueRefs) (result : NegotiationFinalizationResult) (created : Bool)
      → result ≡ finalization_result creator r k refs created
      → refs ≡ refs_of result
  unfolding finalization_result
  refs_same refs result created h = ground arith

  after_refs-old :
      (thread : List NegotiationEntry) (refs : NegotiationIssueRefs) (s : MockNegotiationStore)
      (c : C)
      → get_status k s ≡ ok ThreadStatus.agreed
      → after_refs creator r k thread (ok (some refs)) s c
        ≡ (ok (finalization_result creator r k refs false), s, c)
  unfolding after_refs
  after_refs-old thread refs s c status = rw (settle_thread_members-ok k s status) refl

  -- A final thread is finalized already: no issue is created and nothing changes.
  finalize_negotiation-final :
      (refs : NegotiationIssueRefs) (s : MockNegotiationStore) (c : C)
      → IsFinal k refs s
      → finalize_negotiation creator r k s c
        ≡ (ok (finalization_result creator r k refs false), s, c)
  unfolding finalize_negotiation after_refs
  finalize_negotiation-final refs s c h =
      let required =
        require_finalizable-final r.sha256 k h.thread s
          (record { status = h.status; loaded = h.loaded; supported = h.supported }) in
      rw
        (
          ap (λ (x : Result (List NegotiationEntry) × MockNegotiationStore). x.0) required,
          finalize_negotiation,
          ap (λ (x : Result (List NegotiationEntry) × MockNegotiationStore). x.1) required,
        )
        (ap (λ x. after_refs creator r k h.thread x s c) h.recorded_refs
          ∙ after_refs-old h.thread refs s c h.status)

  record_issue_refs-IsFinal :
      (refs : NegotiationIssueRefs) (thread : List NegotiationEntry) (s : MockNegotiationStore)
      {result : NegotiationFinalizationResult}
      → IsFinalizable k thread s
      → (record_issue_refs creator r k refs s).0 ≡ ok result
      → (result ≡ finalization_result creator r k refs true)
        × IsFinal k refs (record_issue_refs creator r k refs s).1
  unfolding record_issue_refs
  record_issue_refs-IsFinal refs thread s {result} h p =
      let (_, set, p₁, s₁) =
        bind-ok (set_issue_refs k refs)
          (λ _.
            bind (settle_thread_members k) (λ _. pure (finalization_result creator r k refs true)))
          s p in
      let later = (set_issue_refs k refs s).1 in
      let (_, status, threads, found) = set_issue_refs-ok k refs s set in
      let (_, _, p₂, s₂) =
        bind-ok (settle_thread_members k) (λ _. pure (finalization_result creator r k refs true))
          later p₁ in
      let state : (record_issue_refs creator r k refs s).1 ≡ later =
        s₁ ∙ s₂ ∙ settle_thread_members-state k later in
      (
        cc p₂,
        rw state (record {
          thread = thread;
          status = status;
          loaded = get_thread-threads k s later threads ∙ h.loaded;
          supported = h.supported;
          recorded_refs = found;
        }),
      )

  recorded-IsFinal :
      (thread : List NegotiationEntry) (pair : Result NegotiationIssueRefs × C)
      (s : MockNegotiationStore) {result : NegotiationFinalizationResult}
      → IsFinalizable k thread s
      → (recorded creator r k pair s).0 ≡ ok result
      → IsFinal k (refs_of result) (recorded creator r k pair s).1
  recorded-IsFinal thread (err e, c) s {result} h p = cc
  recorded-IsFinal thread (ok refs, c) s {result} h p =
      let (same, final) = record_issue_refs-IsFinal refs thread s h p in
      subst (λ x. IsFinal k x (record_issue_refs creator r k refs s).1)
        (refs_same refs result true same) final

  open_issues-IsFinal :
      (thread : List NegotiationEntry) (agreed_contract : Result (Option String))
      (s : MockNegotiationStore) (c : C) {result : NegotiationFinalizationResult}
      → IsFinalizable k thread s
      → (open_issues creator r k thread agreed_contract s c).0 ≡ ok result
      → IsFinal k (refs_of result) (open_issues creator r k thread agreed_contract s c).1
  unfolding open_issues
  open_issues-IsFinal thread (err e) s c {result} h p = cc
  open_issues-IsFinal thread (ok agreed_contract) s c {result} h p =
      elim (Result-cases (contract_of agreed_contract thread)) [
        | inr (e, failed) ↦ absurd (ground arith)
        | inl (contract, named) ↦
            rw (named, open_issues)
              (recorded-IsFinal thread (create_issue_pair creator r k thread contract c) s h
                (rw (named, open_issues) at p))
      ]

  after_refs-IsFinal :
      (thread : List NegotiationEntry) (refs : Result (Option NegotiationIssueRefs))
      (s : MockNegotiationStore) (c : C) {result : NegotiationFinalizationResult}
      → get_issue_refs k s ≡ refs
      → IsFinalizable k thread s
      → (after_refs creator r k thread refs s c).0 ≡ ok result
      → IsFinal k (refs_of result) (after_refs creator r k thread refs s c).1
  unfolding after_refs
  after_refs-IsFinal thread (err e) s c {result} found h p = cc
  after_refs-IsFinal thread (ok none) s c {result} found h p =
      open_issues-IsFinal thread (get_agreed_contract k s) s c h p
  after_refs-IsFinal thread (ok (some refs)) s c {result} found h p =
      let old = after_refs-old thread refs s c h.status in
      let same : result ≡ finalization_result creator r k refs false = cc (old, p) in
      let final : IsFinal k refs s = record {
        thread = thread;
        status = h.status;
        loaded = h.loaded;
        supported = h.supported;
        recorded_refs = found;
      } in
      rw (settle_thread_members-ok k s h.status)
        (subst (λ x. IsFinal k x s) (refs_same refs result false same) final)

  -- A finalization that succeeds leaves the thread agreed and supported in the store, with the two
  -- issues that it reports.
  pub finalize_negotiation-IsFinal :
      (s : MockNegotiationStore) (c : C) {result : NegotiationFinalizationResult}
      → (finalize_negotiation creator r k s c).0 ≡ ok result
      → IsFinal k (refs_of result) (finalize_negotiation creator r k s c).1
  unfolding finalize_negotiation
  finalize_negotiation-IsFinal s c {result} p =
      elim (Result-cases (require_finalizable r.sha256 k s).0) [
        | inr (e, failed) ↦ absurd (ground arith)
        | inl (thread, required) ↦
            let later = (require_finalizable r.sha256 k s).1 in
            rw (required, finalize_negotiation)
              (after_refs-IsFinal thread (get_issue_refs k later) later c refl
                (require_finalizable-ok r.sha256 k s required)
                (rw (required, finalize_negotiation) at p))
      ]

-- Finalizing a thread again, whoever asks and whoever would create the issues, reports the issues of
-- the first time, creates none and changes nothing.
pub finalize_negotiation_again :
    {C D : Type 0} (creator : IssueCreator C) (other : IssueCreator D) (r r' : Request) (k : String)
    (s : MockNegotiationStore) (c : C) (d : D) {result : NegotiationFinalizationResult}
    → (finalize_negotiation creator r k s c).0 ≡ ok result
    → finalize_negotiation other r' k (finalize_negotiation creator r k s c).1 d ≡ (
      ok (finalization_result other r' k (refs_of result) false),
      (finalize_negotiation creator r k s c).1,
      d,
    )
finalize_negotiation_again creator other r r' k s c d p =
    finalize_negotiation-final other r' k _ _ d (finalize_negotiation-IsFinal creator r k s c p)
