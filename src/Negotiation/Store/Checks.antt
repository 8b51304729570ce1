-- ===== src/Negotiation/Store/Checks.antt =====
-- What the checks of the negotiation store's methods establish.
use issuekit.Prelude.{
  ℕ, String, ◌≡◌, refl, true, false, Option, some, List, [], ◌∷◌, ◌++◌, arith, Result, ok, err,
  raised, is_some, ap, ◌∙◌,
}
use issuekit.Prelude.Dict.{get, get-put_self}
use issuekit.Negotiation.Model.{
  ThreadStatus, NegotiationEntry, NegotiationIssueRefs, is_negotiating, is_agreed,
}
use issuekit.Negotiation.Store.{
  Threads, MockNegotiationStore, EntryInput, status_of, has_status, persist, ensure_thread,
  ensure_negotiating, ensure_unique_origin, has_origin, make_entry, append_made, or_latest,
  after_checks, Exec, append_entry, set_status, append_initial_checks, append_checks, append_body,
  set_status_checks, set_status_body, set_refs_checks, cancel_checks,
}

pub after_checks_keeps :
    {A B : Type 0} (P : MockNegotiationStore → Type 0) (checks : Result A) (body : A → Exec B)
    (s : MockNegotiationStore)
    → P s
    → ((a : A) → checks ≡ ok a → P (body a s).1)
    → P (after_checks checks body s).1
after_checks_keeps P (ok a) body s p h = h a refl
after_checks_keeps P (err e) body s p h = p

pub append_checks-ok :
    (t : Threads) (k : String) (input : EntryInput) {entries : List NegotiationEntry}
    → append_checks t k input ≡ ok entries
    → (get k t.threads ≡ some entries)
      × (has_status is_negotiating (status_of t k) ≡ true)
      × (has_origin input.origin entries ≡ false)
unfolding append_checks ensure_thread ensure_negotiating ensure_unique_origin
append_checks-ok t k input {entries} h = (ground arith, ground arith, ground arith)

pub append_initial_checks-ok :
    (t : Threads) (k : String) (input : EntryInput) {entries : List NegotiationEntry}
    → append_initial_checks t k input ≡ ok entries
    → (get k t.threads ≡ some entries) × (entries ≡ [])
unfolding append_initial_checks ensure_thread
append_initial_checks-ok t k input {entries} h = (ground arith, ground arith)

pub set_status_checks-ok :
    (t : Threads) (k : String) (next : ThreadStatus) (contract : Option String)
    {entries : List NegotiationEntry}
    → set_status_checks t k next contract ≡ ok entries
    → has_status is_negotiating (status_of t k) ≡ true
unfolding set_status_checks
set_status_checks-ok t k next contract {entries} h = ground arith

pub set_status_checks-found :
    (t : Threads) (k : String) (next : ThreadStatus) (contract : Option String)
    {entries : List NegotiationEntry}
    → set_status_checks t k next contract ≡ ok entries
    → get k t.threads ≡ some entries
unfolding set_status_checks ensure_thread
set_status_checks-found t k next contract {entries} h = ground arith

pub set_refs_checks-ok :
    (t : Threads) (k : String) (refs : NegotiationIssueRefs)
    → raised (set_refs_checks t k refs) ≡ false
    → has_status is_agreed (status_of t k) ≡ true
unfolding set_refs_checks
set_refs_checks-ok t k refs h = ground arith

pub cancel_checks-ok :
    (t : Threads) (k : String)
    → raised (cancel_checks t k) ≡ false
    → (has_status is_negotiating (status_of t k) ≡ true) × (is_some (get k t.issue_refs) ≡ false)
unfolding cancel_checks
cancel_checks-ok t k h = (ground arith, ground arith)

pub make_entry-ok :
    (today k : String) (id : ℕ) (input : EntryInput) {e : NegotiationEntry}
    → make_entry today k id input ≡ ok e
    → (e.id ≡ some id) × (e.origin ≡ input.origin)
unfolding make_entry
make_entry-ok today k id input {e} h = (ground arith, ground arith)

pub after_checks-ok :
    {A B : Type 0} (checks : Result A) (body : A → Exec B) (s : MockNegotiationStore) {b : B}
    → (after_checks checks body s).0 ≡ ok b
    → (a : A) × (checks ≡ ok a)
      × ((body a s).0 ≡ ok b)
      × ((after_checks checks body s).1 ≡ (body a s).1)
after_checks-ok (ok a) body s h = (a, refl, h, refl)
after_checks-ok (err e) body s h = cc

append_made-ok :
    (k : String) (entries : List NegotiationEntry) (made : Result NegotiationEntry)
    (s : MockNegotiationStore) {e : NegotiationEntry}
    → (append_made k entries made s).0 ≡ ok e
    → (made ≡ ok e)
      × (get k (append_made k entries made s).1.threads ≡ some (entries ++ e ∷ []))
      × ((append_made k entries made s).1.statuses ≡ s.statuses)
      × ((append_made k entries made s).1.agreed_contracts ≡ s.agreed_contracts)
unfolding append_made persist
append_made-ok k entries (err x) s h = cc
append_made-ok k entries (ok x) s {e} h =
    let same : x ≡ e = cc in (cc, rw (get-put_self, same) refl, refl, refl)

-- What `append_entry` does to its thread.
pub append_entry-ok :
    (today k : String) (input : EntryInput) (s : MockNegotiationStore)
    (entries : List NegotiationEntry) {e : NegotiationEntry}
    → get k s.threads ≡ some entries
    → (append_entry today k input s).0 ≡ ok e
    → (get k (append_entry today k input s).1.threads ≡ some (entries ++ e ∷ []))
      × (has_status is_negotiating (status_of s.now k) ≡ true)
      × ((append_entry today k input s).1.statuses ≡ s.statuses)
      × (make_entry today k s.next_entry_id input ≡ ok e)
unfolding append_entry append_body
append_entry-ok today k input s entries {e} old h =
    let (es, checked, appended, state) =
      after_checks-ok (append_checks s.now k input) (append_body today k input) s h in
    let (found, open_thread, _) = append_checks-ok s.now k input checked in
    let (made, threads, statuses, _) =
      append_made-ok k es (make_entry today k s.next_entry_id input) s appended in
    let same : es ≡ entries = cc (found, old) in
    (rw state (threads ∙ ap (λ x. some (x ++ e ∷ [])) same), open_thread, rw state statuses, made)

pub make_entry-side :
    (today k : String) (id : ℕ) (input : EntryInput) {e : NegotiationEntry}
    → make_entry today k id input ≡ ok e
    → (e.side ≡ input.side) × (e.verdict ≡ input.verdict) × (e.contract ≡ input.contract)
unfolding make_entry
make_entry-side today k id input {e} h = (ground arith, ground arith, ground arith)

-- What `set_status` does.
pub set_status-ok :
    (k : String) (next : ThreadStatus) (contract : Option String) (s : MockNegotiationStore)
    (entries : List NegotiationEntry)
    → get k s.threads ≡ some entries
    → (set_status k next contract s).0 ≡ ok tt
    → ((set_status k next contract s).1.threads ≡ s.threads)
      × (get k (set_status k next contract s).1.statuses ≡ some next)
      × (is_agreed next ≡ true
          → get k (set_status k next contract s).1.agreed_contracts
            ≡ some (or_latest contract entries))
unfolding set_status set_status_body persist
set_status-ok k next contract s entries old h =
    let (es, checked, _, state) =
      after_checks-ok (set_status_checks s.now k next contract) (set_status_body k next contract) s
        h in
    let same : es ≡ entries = cc (set_status_checks-found s.now k next contract checked, old) in
    (
      rw state,
      rw state (get-put_self k next s.statuses),
      λ yes_agreed.
          rw (state, same, yes_agreed)
            (get-put_self k (or_latest contract entries) s.agreed_contracts),
    )
