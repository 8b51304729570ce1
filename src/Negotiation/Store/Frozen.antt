-- ===== src/Negotiation/Store/Frozen.antt =====
-- A thread that has left the state `negotiating`.
use issuekit.Prelude.{
  String, ◌≡◌, true, false, Option, some, List, [], ◌∷◌, arith, Result, ok, err, ◌==◌, eq_iff,
}
use native.Mathlib.Nat.{le_refl}
use issuekit.Prelude.Dict.{get, get-put}
use issuekit.Prelude.Decimal.{show}
use issuekit.Negotiation.Model.{ThreadStatus, NegotiationEntry, is_negotiating}
use issuekit.Negotiation.Store.{
  Threads, MockNegotiationStore, status_of, has_status, persist, ensure_thread, append_made,
  create_made, or_latest, create_checks, create_body, append_initial_checks, append_checks,
  append_body, set_status_checks, set_status_body, set_refs_checks, set_refs_body, settle_body,
  cancel_checks, cancel_body,
}
use issuekit.Negotiation.Store.Checks.{
  after_checks_keeps, append_checks-ok, append_initial_checks-ok, set_status_checks-ok,
  cancel_checks-ok,
}
use issuekit.Negotiation.Store.Ops.{
  Op, create, append_initial, append, set_to, set_refs, settle, cancel, run_op, run_ops, bodies,
}
use issuekit.Negotiation.Store.Invariant.{IsWellFormed, run_op-IsWellFormed}

-- The thread has these entries, this status and this agreed contract.
pub record Shows (k : String) (entries : List NegotiationEntry) (status : ThreadStatus)
    (contract : Option (Option String)) (t : Threads) : Type 0 where
  pub threads : get k t.threads ≡ some entries
  pub statuses : get k t.statuses ≡ some status
  pub contracts : get k t.agreed_contracts ≡ contract

module _ (k : String) (e : NegotiationEntry) (es : List NegotiationEntry) (status : ThreadStatus)
    (contract : Option (Option String)) (closed : is_negotiating status ≡ false) where
  abbrev Keeps : MockNegotiationStore → Type 0
  Keeps u = Shows k (e ∷ es) status contract u.now

  append_made-Keeps :
      (j : String) (entries : List NegotiationEntry) (made : Result NegotiationEntry)
      (s : MockNegotiationStore)
      → (j == k) ≡ false
      → Keeps s
      → Keeps (append_made j entries made s).1
  unfolding append_made persist
  append_made-Keeps j entries (err x) s ne h = record {
    threads = h.threads;
    statuses = h.statuses;
    contracts = h.contracts;
  }
  append_made-Keeps j entries (ok x) s ne h = record {
    threads = rw (get-put, ne) h.threads;
    statuses = h.statuses;
    contracts = h.contracts;
  }

  create_made-Keeps :
      (j : String) (made : Result NegotiationEntry) (s : MockNegotiationStore)
      → (j == k) ≡ false
      → Keeps s
      → Keeps (create_made j made s).1
  unfolding create_made persist
  create_made-Keeps j (err x) s ne h = record {
    threads = h.threads;
    statuses = h.statuses;
    contracts = h.contracts;
  }
  create_made-Keeps j (ok x) s ne h = record {
    threads = rw (get-put, ne) h.threads;
    statuses = rw (get-put, ne) h.statuses;
    contracts = rw (get-put, ne) h.contracts;
  }

  -- A thread that negotiates is another thread.
  other_thread :
      (j : String) (t : Threads)
      → Shows k (e ∷ es) status contract t
      → has_status is_negotiating (status_of t j) ≡ true
      → (j == k) ≡ false
  other_thread j t h p = ground (arith, eq_iff j k, h.statuses)

  pub run_op-Shows :
      (op : Op) (s : MockNegotiationStore) → IsWellFormed s.now → Keeps s → Keeps (run_op op s).1
  unfolding run_op bodies persist
  run_op-Shows (create today input) s wf h =
      after_checks_keeps Keeps (create_checks input) (λ _. create_body today input) s h
        (λ _ _.
          create_made-Keeps (show s.next_thread_id) _ s
            (ground (
              arith,
              eq_iff (show s.next_thread_id) k,
              (wf.fresh s.next_thread_id (le_refl _)).1,
              h.statuses,
            ))
            h)
  run_op-Shows (append_initial today j input) s wf h =
      after_checks_keeps Keeps (append_initial_checks s.now j input) (append_body today j input) s h
        (λ entries checked.
          append_made-Keeps j entries _ s
            (ground (arith, eq_iff j k, append_initial_checks-ok s.now j input checked, h.threads))
            h)
  run_op-Shows (append today j input) s wf h =
      after_checks_keeps Keeps (append_checks s.now j input) (append_body today j input) s h
        (λ entries checked.
          append_made-Keeps j entries _ s
            (other_thread j s.now h (append_checks-ok s.now j input checked).1) h)
  run_op-Shows (set_to j next c) s wf h =
      after_checks_keeps Keeps (set_status_checks s.now j next c) (set_status_body j next c) s h
        (λ entries checked.
          let ne = other_thread j s.now h (set_status_checks-ok s.now j next c checked) in
          record {
            threads = h.threads;
            statuses = rw (get-put, ne) h.statuses;
            contracts =
                ground
                  (arith, get-put j k (or_latest c entries) s.agreed_contracts, ne, h.contracts);
          })
  run_op-Shows (set_refs j refs) s wf h =
      after_checks_keeps Keeps (set_refs_checks s.now j refs) (λ _. set_refs_body j refs) s h
        (λ _ _. record { threads = h.threads; statuses = h.statuses; contracts = h.contracts })
  run_op-Shows (settle j) s wf h =
      after_checks_keeps Keeps (ensure_thread s.now j) (λ _. settle_body) s h (λ _ _. h)
  run_op-Shows (cancel j) s wf h =
      after_checks_keeps Keeps (cancel_checks s.now j) (λ _. cancel_body j) s h
        (λ _ checked.
          let ne = other_thread j s.now h (cancel_checks-ok s.now j (rw checked)).0 in
          record {
            threads = h.threads;
            statuses = rw (get-put, ne) h.statuses;
            contracts = h.contracts;
          })

  -- In a well-formed store, once a thread with entries is agreed, blocked or cancelled, no series of
  -- calls changes its entries, its status or its agreed contract.
  pub run_ops-Shows :
      (ops : List Op) (s : MockNegotiationStore)
      → IsWellFormed s.now
      → Shows k (e ∷ es) status contract s.now
      → Shows k (e ∷ es) status contract (run_ops ops s).now
  unfolding run_ops
  run_ops-Shows [] s wf h = h
  run_ops-Shows (op ∷ ops) s wf h =
      run_ops-Shows ops (run_op op s).1 (run_op-IsWellFormed op s wf) (run_op-Shows op s wf h)
