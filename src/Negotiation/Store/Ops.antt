-- ===== src/Negotiation/Store/Ops.antt =====
-- The calls that change a negotiation store, as one type, and what each of them leaves alone.
use mathlib.Core.Bool.{false≢true}
use issuekit.Prelude.{String, ◌≡◌, refl, true, Option, List, [], ◌∷◌, Result, ok, err, raised}
use issuekit.Negotiation.Model.{ThreadStatus, NegotiationEntry, NegotiationIssueRefs}
use issuekit.Negotiation.Store.{
  MockNegotiationStore, EntryInput, ensure_thread, append_made, create_made, after_checks, Exec,
  create_thread, append_initial_entry, append_entry, set_status, set_issue_refs,
  settle_thread_members, cancel_thread, create_checks, create_body, append_initial_checks,
  append_checks, append_body, set_status_checks, set_status_body, set_refs_checks, set_refs_body,
  settle_body, cancel_checks, cancel_body,
}

-- A call, with the date on which it is made.
pub data Op : Type 0 where
  create : String → EntryInput → Op
  append_initial append : String → String → EntryInput → Op
  set_to : String → ThreadStatus → Option String → Op
  set_refs : String → NegotiationIssueRefs → Op
  settle cancel : String → Op

abbrev done : {A : Type 0} → Result A → Result (Unit {0})
done (ok a) = ok tt
done (err e) = err e

abbrev forget :
    {A : Type 0} → Result A × MockNegotiationStore → Result (Unit {0}) × MockNegotiationStore
forget (r, s) = (done r, s)

unfoldable pub run_op : Op → Exec (Unit {0})
run_op (create today input) s = forget (create_thread today input s)
run_op (append_initial today thread_id input) s =
    forget (append_initial_entry today thread_id input s)
run_op (append today thread_id input) s = forget (append_entry today thread_id input s)
run_op (set_to thread_id status contract) s = set_status thread_id status contract s
run_op (set_refs thread_id refs) s = set_issue_refs thread_id refs s
run_op (settle thread_id) s = settle_thread_members thread_id s
run_op (cancel thread_id) s = cancel_thread thread_id s

unfoldable pub run_ops : List Op → MockNegotiationStore → MockNegotiationStore
run_ops [] s = s
run_ops (op ∷ ops) s = run_ops ops (run_op op s).1

-- What a failed call may not change: all but the counters.
pub record SameContents (a b : MockNegotiationStore) : Type 0 where
  pub threads : a.threads ≡ b.threads
  pub statuses : a.statuses ≡ b.statuses
  pub agreed_contracts : a.agreed_contracts ≡ b.agreed_contracts
  pub issue_refs : a.issue_refs ≡ b.issue_refs
  pub file : a.file ≡ b.file

unchanged : (s : MockNegotiationStore) → SameContents s s
unchanged s = record {
  threads = refl;
  statuses = refl;
  agreed_contracts = refl;
  issue_refs = refl;
  file = refl;
}

after_checks-err :
    {A B : Type 0} (checks : Result A) (body : A → Exec B) (s : MockNegotiationStore)
    → raised (after_checks checks body s).0 ≡ true
    → ((a : A) → raised (body a s).0 ≡ true → SameContents (body a s).1 s)
    → SameContents (after_checks checks body s).1 s
after_checks-err (ok a) body s p h = h a p
after_checks-err (err e) body s p h = unchanged s

append_made-err :
    (thread_id : String) (entries : List NegotiationEntry) (made : Result NegotiationEntry)
    (s : MockNegotiationStore)
    → raised (append_made thread_id entries made s).0 ≡ true
    → SameContents (append_made thread_id entries made s).1 s
unfolding append_made
append_made-err k entries (ok x) s p = cc
append_made-err k entries (err e) s p = record {
  threads = refl;
  statuses = refl;
  agreed_contracts = refl;
  issue_refs = refl;
  file = refl;
}

create_made-err :
    (thread_id : String) (made : Result NegotiationEntry) (s : MockNegotiationStore)
    → raised (create_made thread_id made s).0 ≡ true
    → SameContents (create_made thread_id made s).1 s
unfolding create_made
create_made-err k (ok x) s p = cc
create_made-err k (err e) s p = record {
  threads = refl;
  statuses = refl;
  agreed_contracts = refl;
  issue_refs = refl;
  file = refl;
}

raised-done : {A : Type 0} (r : Result A) → raised (done r) ≡ raised r
raised-done (ok a) = refl
raised-done (err e) = refl

-- The methods and their bodies, for an `unfolding` line.
unfoldable pub bodies : Unit {0}
unfolding create_thread append_initial_entry append_entry set_status set_issue_refs
    settle_thread_members cancel_thread create_body append_body set_status_body set_refs_body
    cancel_body
bodies = tt

-- A call that raises leaves the threads, their statuses, contracts and refs, and the file, as they
-- were.
pub run_op-err :
    (op : Op) (s : MockNegotiationStore)
    → raised (run_op op s).0 ≡ true
    → SameContents (run_op op s).1 s
unfolding run_op bodies
run_op-err (create today input) s h =
    after_checks-err (create_checks input) (λ _. create_body today input) s (rw raised-done at h)
      (λ _ p. create_made-err _ _ s p)
run_op-err (append_initial today thread_id input) s h =
    after_checks-err (append_initial_checks s.now thread_id input)
      (append_body today thread_id input) s (rw raised-done at h)
      (λ entries p. append_made-err thread_id entries _ s p)
run_op-err (append today thread_id input) s h =
    after_checks-err (append_checks s.now thread_id input) (append_body today thread_id input) s
      (rw raised-done at h) (λ entries p. append_made-err thread_id entries _ s p)
run_op-err (set_to thread_id status contract) s h =
    after_checks-err (set_status_checks s.now thread_id status contract)
      (set_status_body thread_id status contract) s h (λ _ p. absurd (false≢true p))
run_op-err (set_refs thread_id refs) s h =
    after_checks-err (set_refs_checks s.now thread_id refs) (λ _. set_refs_body thread_id refs) s h
      (λ _ p. absurd (false≢true p))
run_op-err (settle thread_id) s h =
    after_checks-err (ensure_thread s.now thread_id) (λ _. settle_body) s h
      (λ _ p. absurd (false≢true p))
run_op-err (cancel thread_id) s h =
    after_checks-err (cancel_checks s.now thread_id) (λ _. cancel_body thread_id) s h
      (λ _ p. absurd (false≢true p))
