-- ===== src/Negotiation/Store/Invariant.antt =====
-- What every call on a negotiation store keeps.
use mathlib.Core.Path.{subst}
use mathlib.Core.Option.{some-injective}
use issuekit.Prelude.{
  ℕ, ◌+◌, ◌≤◌, ◌<◌, String, ◌≡◌, refl, ◌≢◌, true, false, Option, none, some, List, [], ◌∷◌, ◌++◌,
  arith, Result, ok, err, ◌==◌, eq_iff, inl, inr, Bool-cases, is_some, ◌⊎◌,
}
use issuekit.Prelude.Dict.{get, put, get-put, get-pop}
use issuekit.Prelude.Decimal.{show, show-injective}
use issuekit.Negotiation.Model.{
  ThreadStatus, negotiating, cancelled, NegotiationEntry, NegotiationIssueRefs, is_negotiating,
  is_agreed,
}
use issuekit.Negotiation.Store.{
  Threads, MockNegotiationStore, status_of, has_status, persist, ensure_thread, has_origin,
  append_made, create_made, create_checks, create_body, append_initial_checks, append_checks,
  append_body, set_status_checks, set_status_body, set_refs_checks, set_refs_body, settle_body,
  cancel_checks, cancel_body,
}
use issuekit.Negotiation.Store.Order.{Ascending, Ascending-snoc, Ascending-mono}
use issuekit.Negotiation.Store.Checks.{
  after_checks_keeps, make_entry-ok, append_checks-ok, append_initial_checks-ok,
  set_status_checks-ok, set_refs_checks-ok, cancel_checks-ok,
}
use issuekit.Negotiation.Store.Ops.{
  Op, create, append_initial, append, set_to, set_refs, settle, cancel, run_op, run_ops, bodies,
}

-- No two entries of a thread have one origin.
abbrev pub DistinctOrigins : List NegotiationEntry → Type 0
DistinctOrigins [] = Unit
DistinctOrigins (e ∷ t) = (has_origin e.origin t ≡ false) × DistinctOrigins t

pub record IsWellFormed (t : Threads) : Type 0 where
  pub fresh :
      (n : ℕ)
      → t.next_thread_id ≤ n
      → (get (show n) t.threads ≡ none) × (get (show n) t.statuses ≡ none)
  pub ascending :
      (k : String) (entries : List NegotiationEntry)
      → get k t.threads ≡ some entries
      → Ascending 0 entries t.next_entry_id
  pub distinct :
      (k : String) (entries : List NegotiationEntry)
      → get k t.threads ≡ some entries
      → DistinctOrigins entries
  pub refs_agreed :
      (k : String)
      → is_some (get k t.issue_refs) ≡ true
      → has_status is_agreed (get k t.statuses) ≡ true

has_origin-snoc :
    (o : String) (t : List NegotiationEntry) (e : NegotiationEntry)
    → has_origin o t ≡ false
    → o ≢ e.origin
    → has_origin o (t ++ e ∷ []) ≡ false
unfolding has_origin
has_origin-snoc o [] e h ne = ground (arith, eq_iff e.origin o)
has_origin-snoc o (x ∷ t) e h ne = ground (arith, has_origin-snoc o t e)

DistinctOrigins-snoc :
    (t : List NegotiationEntry) (e : NegotiationEntry)
    → DistinctOrigins t
    → has_origin e.origin t ≡ false
    → DistinctOrigins (t ++ e ∷ [])
unfolding has_origin
DistinctOrigins-snoc [] e d h = (refl, tt)
DistinctOrigins-snoc (x ∷ t) e (first, d) h = (
  has_origin-snoc x.origin t e first (λ p. ground (arith, eq_iff x.origin e.origin)),
  DistinctOrigins-snoc t e d (ground arith),
)

show-ne : (m n : ℕ) → m < n → (show m == show n) ≡ false
show-ne m n lt = ground (arith, eq_iff (show m) (show n), show-injective m n)

-- Looking up a thread after one was written: it is the written one, or an old one.
get-put-cases {ℓ} :
    {V : Type ℓ} (k j : String) (v : V) (d : List (String × V)) {w : V}
    → get j (put k v d) ≡ some w
    → ((k ≡ j) × (v ≡ w)) ⊎ ((get j d ≡ some w))
get-put-cases k j v d {w} h = elim (Bool-cases (k == j)) [
  | inl same ↦ inl ((eq_iff k j).0 same, some-injective v w (rw same at (rw get-put at h)))
  | inr other ↦ inr (rw other at (rw get-put at h))
]

module _ (k : String) (entries : List NegotiationEntry) (s : MockNegotiationStore)
    (old : get k s.threads ≡ some entries) (h : IsWellFormed s.now) where
  append_made-IsWellFormed :
      (made : Result NegotiationEntry)
      → ((e : NegotiationEntry)
          → made ≡ ok e
          → (e.id ≡ some s.next_entry_id) × (has_origin e.origin entries ≡ false))
      → IsWellFormed (append_made k entries made s).1.now
  unfolding append_made persist
  append_made-IsWellFormed (err e) new = record {
    fresh = h.fresh;
    ascending = λ j es p. Ascending-mono es 0 s.next_entry_id _ (omega arith) (h.ascending j es p);
    distinct = h.distinct;
    refs_agreed = h.refs_agreed;
  }
  append_made-IsWellFormed (ok e) new = record {
    fresh = λ n le.
        let (no_thread, no_status) = h.fresh n le in
        (rw get-put (ground (arith, eq_iff k (show n))), no_status);
    ascending = λ j es p. elim (get-put-cases k j (entries ++ e ∷ []) s.threads p) [
      | inl (_, same) ↦
          subst (λ x. Ascending 0 x (s.next_entry_id + 1)) same
            (Ascending-snoc entries 0 s.next_entry_id e (new e refl).0 (h.ascending k entries old))
      | inr before ↦ Ascending-mono es 0 s.next_entry_id _ (omega arith) (h.ascending j es before)
    ];
    distinct = λ j es p. elim (get-put-cases k j (entries ++ e ∷ []) s.threads p) [
      | inl (_, same) ↦
          subst DistinctOrigins same
            (DistinctOrigins-snoc entries e (h.distinct k entries old) (new e refl).1)
      | inr before ↦ h.distinct j es before
    ];
    refs_agreed = h.refs_agreed;
  }

create_made-IsWellFormed :
    (made : Result NegotiationEntry) (s : MockNegotiationStore)
    → ((e : NegotiationEntry) → made ≡ ok e → e.id ≡ some s.next_entry_id)
    → IsWellFormed s.now
    → IsWellFormed (create_made (show s.next_thread_id) made s).1.now
unfolding create_made persist has_origin
create_made-IsWellFormed (err e) s new h = record {
  fresh = λ n le. h.fresh n (omega arith);
  ascending = λ j es p. Ascending-mono es 0 s.next_entry_id _ (omega arith) (h.ascending j es p);
  distinct = h.distinct;
  refs_agreed = h.refs_agreed;
}
create_made-IsWellFormed (ok e) s new h = record {
  fresh = λ n le.
      let (no_thread, no_status) = h.fresh n (omega arith) in
      let other = show-ne s.next_thread_id n (omega arith) in
      (rw (get-put, other) no_thread, rw (get-put, other) no_status);
  ascending = λ j es p. elim (get-put-cases (show s.next_thread_id) j (e ∷ []) s.threads p) [
    | inl (_, same) ↦
        subst (λ x. Ascending 0 x (s.next_entry_id + 1)) same
          (s.next_entry_id, new e refl, omega arith, omega arith)
    | inr before ↦ Ascending-mono es 0 s.next_entry_id _ (omega arith) (h.ascending j es before)
  ];
  distinct = λ j es p. elim (get-put-cases (show s.next_thread_id) j (e ∷ []) s.threads p) [
    | inl (_, same) ↦ subst DistinctOrigins same (refl, tt)
    | inr before ↦ h.distinct j es before
  ];
  refs_agreed = λ j p. ground (
    arith,
    get-put (show s.next_thread_id) j negotiating s.statuses,
    get-pop (show s.next_thread_id) j s.issue_refs,
    h.refs_agreed j,
  );
}

-- A new status for a negotiating thread.
statuses-IsWellFormed :
    (t : Threads) (k : String) (next : ThreadStatus) (contracts : List (String × Option String))
    → has_status is_negotiating (status_of t k) ≡ true
    → IsWellFormed t
    → IsWellFormed (record t { statuses = put k next t.statuses; agreed_contracts = contracts })
statuses-IsWellFormed t k next contracts open_thread h = record {
  fresh = λ n le.
      let (no_thread, no_status) = h.fresh n le in
      (no_thread, ground (arith, get-put k (show n) next t.statuses, eq_iff k (show n)));
  ascending = h.ascending;
  distinct = h.distinct;
  refs_agreed = λ j p. ground (arith, get-put k j next t.statuses, eq_iff k j, h.refs_agreed j p);
}

refs-IsWellFormed :
    (t : Threads) (k : String) (refs : NegotiationIssueRefs)
    → has_status is_agreed (status_of t k) ≡ true
    → IsWellFormed t
    → IsWellFormed (record t { issue_refs = put k refs t.issue_refs })
refs-IsWellFormed t k refs agreed_thread h = record {
  fresh = h.fresh;
  ascending = h.ascending;
  distinct = h.distinct;
  refs_agreed = λ j p. ground (arith, get-put k j refs t.issue_refs, eq_iff k j, h.refs_agreed j);
}

-- Every call keeps a store well-formed, also one that raises.
pub run_op-IsWellFormed :
    (op : Op) (s : MockNegotiationStore) → IsWellFormed s.now → IsWellFormed (run_op op s).1.now
unfolding run_op bodies persist
run_op-IsWellFormed (create today input) s h =
    after_checks_keeps (λ u. IsWellFormed u.now) (create_checks input)
      (λ _. create_body today input) s h
      (λ _ _. create_made-IsWellFormed _ s (λ e made. (make_entry-ok today _ _ input made).0) h)
run_op-IsWellFormed (append_initial today k input) s h =
    after_checks_keeps (λ u. IsWellFormed u.now) (append_initial_checks s.now k input)
      (append_body today k input) s h
      (λ entries checked.
        let (old, no_entries) = append_initial_checks-ok s.now k input checked in
        append_made-IsWellFormed k entries s old h _ (λ e made. (
          (make_entry-ok today k s.next_entry_id input made).0,
          rw no_entries (unfold has_origin in refl),
        )))
run_op-IsWellFormed (append today k input) s h =
    after_checks_keeps (λ u. IsWellFormed u.now) (append_checks s.now k input)
      (append_body today k input) s h
      (λ entries checked.
        let (old, _, unique) = append_checks-ok s.now k input checked in
        append_made-IsWellFormed k entries s old h _ (λ e made.
          let (id, origin) = make_entry-ok today k s.next_entry_id input made in
          (id, rw origin unique)))
run_op-IsWellFormed (set_to k next contract) s h =
    after_checks_keeps (λ u. IsWellFormed u.now) (set_status_checks s.now k next contract)
      (set_status_body k next contract) s h
      (λ entries checked.
        statuses-IsWellFormed s.now k next _ (set_status_checks-ok s.now k next contract checked) h)
run_op-IsWellFormed (set_refs k refs) s h =
    after_checks_keeps (λ u. IsWellFormed u.now) (set_refs_checks s.now k refs)
      (λ _. set_refs_body k refs) s h
      (λ _ checked. refs-IsWellFormed s.now k refs (set_refs_checks-ok s.now k refs (rw checked)) h)
run_op-IsWellFormed (settle k) s h =
    after_checks_keeps (λ u. IsWellFormed u.now) (ensure_thread s.now k) (λ _. settle_body) s h
      (λ _ _. h)
run_op-IsWellFormed (cancel k) s h =
    after_checks_keeps (λ u. IsWellFormed u.now) (cancel_checks s.now k) (λ _. cancel_body k) s h
      (λ _ checked.
        statuses-IsWellFormed s.now k cancelled _ (cancel_checks-ok s.now k (rw checked)).0 h)

-- From a store that is well formed (ids ahead of the counter are free, the entries of a thread ascend
-- by id, their origins differ, and only agreed threads have refs), every series of calls leads to one
-- that is well formed.
pub run_ops-IsWellFormed :
    (ops : List Op) (s : MockNegotiationStore)
    → IsWellFormed s.now
    → IsWellFormed (run_ops ops s).now
unfolding run_ops
run_ops-IsWellFormed [] s h = h
run_ops-IsWellFormed (op ∷ ops) s h =
    run_ops-IsWellFormed ops (run_op op s).1 (run_op-IsWellFormed op s h)
