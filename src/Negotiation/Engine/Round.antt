-- ===== src/Negotiation/Engine/Round.antt =====
-- One round of a negotiation: what it does to the thread in the store.
use issuekit.Prelude.{
  ℕ, ◌+◌, String, ◌≡◌, refl, true, some, List, [], ◌∷◌, ◌++◌, ok, length, ◌∙◌, Result-cases, inl,
  inr,
}
use issuekit.Prelude.Dict.{get}
use issuekit.Negotiation.Model.{NegotiationEntry, is_negotiating}
use issuekit.Negotiation.Thread.{next_side, require_supported_thread}
use issuekit.Negotiation.Store.{
  MockNegotiationStore, Exec, append_entry, status_of, has_status, EntryInput,
}
use issuekit.Negotiation.Store.Order.{get_thread, get_thread-Ascending}
use issuekit.Negotiation.Store.Checks.{after_checks-ok, append_entry-ok, make_entry-side}
use issuekit.Negotiation.Store.Ops.{append, run_op}
use issuekit.Negotiation.Store.Invariant.{IsWellFormed, run_op-IsWellFormed}
use issuekit.Negotiation.Engine.{
  ParsedRound, RoundRun, Context, bind, pure, raise, read, run_side_turn,
  set_terminal_status_if_converged, guarded_turn, after_side, after_turn, after_append, turn_input,
  reload, run_round,
}

-- Inversion of a successful bind.
pub bind-ok :
    {A B : Type 0} (m : Exec A) (f : A → Exec B) (s : MockNegotiationStore) {b : B}
    → (bind m f s).0 ≡ ok b
    → (a : A) × ((m s).0 ≡ ok a) × ((f a (m s).1).0 ≡ ok b) × ((bind m f s).1 ≡ (f a (m s).1).1)
bind-ok m f s h = after_checks-ok (m s).0 f (m s).1 h

-- The store holds the thread that the engine has read, and is in order.
pub record Holds (k : String) (thread : List NegotiationEntry) (s : MockNegotiationStore)
    : Type 0 where
  pub stored : get k s.threads ≡ some thread
  pub well_formed : IsWellFormed s.now

module _ (c : Context) (k : String) where
  guarded_turn-ok :
      (n : ℕ) (side : String) (thread : List NegotiationEntry) (s : MockNegotiationStore)
      {p : ParsedRound}
      → (guarded_turn c k n side thread s).0 ≡ ok p
      → (guarded_turn c k n side thread s).1 ≡ s
  unfolding guarded_turn
  guarded_turn-ok n side thread s {p} h =
      elim (Result-cases (run_side_turn c.agent n side thread)) [
        | inl (parsed, e) ↦ rw (e, guarded_turn)
        | inr (x, e) ↦
            let raised_turn : (bind (set_terminal_status_if_converged c k thread)
                  (λ _. raise {A = ParsedRound} x) s).0
                ≡ ok p =
              rw (e, guarded_turn) at h in
            let (_, _, impossible, _) =
              bind-ok (set_terminal_status_if_converged c k thread) (λ _. raise {A = ParsedRound} x)
                s raised_turn in
            cc impossible
      ]

  reload-ok :
      (thread : List NegotiationEntry) (s : MockNegotiationStore) {t : List NegotiationEntry}
      → Holds k thread s
      → (reload c k s).0 ≡ ok t
      → (t ≡ thread) × ((reload c k s).1 ≡ s)
  unfolding reload
  reload-ok thread s {t} h p =
      let (t', found, rest, state) =
        bind-ok (read (get_thread k))
          (λ x. bind (read (λ _. require_supported_thread x)) (λ _. pure x)) s p in
      let (_, _, same, state') =
        bind-ok (read (λ _. require_supported_thread t')) (λ _. pure t') s rest in
      (
        cc (
          found,
          same,
          get_thread-Ascending k s thread s.next_entry_id h.stored
              (h.well_formed.ascending k thread h.stored),
        ),
        state ∙ state',
      )

  -- The thread that `t` names has one more entry, of `side`, and still negotiates.
  pub record Extends (thread t : List NegotiationEntry) (side : String) (s : MockNegotiationStore)
      : Type 0 where
    pub entry : NegotiationEntry
    pub longer : t ≡ thread ++ entry ∷ []
    pub of_side : entry.side ≡ side
    pub holds : Holds k t s
    pub open_thread : has_status is_negotiating (status_of s.now k) ≡ true

  append_entry-Holds :
      (thread : List NegotiationEntry) (input : EntryInput) (s : MockNegotiationStore)
      {e : NegotiationEntry}
      → Holds k thread s
      → (append_entry c.today k input s).0 ≡ ok e
      → Extends thread (thread ++ e ∷ []) input.side (append_entry c.today k input s).1
  unfolding run_op
  append_entry-Holds thread input s {e} h p =
      let (stored, negotiates, statuses, made) =
        append_entry-ok c.today k input s thread h.stored p in
      record {
        entry = e;
        longer = refl;
        of_side = (make_entry-side c.today k s.next_entry_id input made).0;
        holds = record {
          stored = stored;
          well_formed = run_op-IsWellFormed (append c.today k input) s h.well_formed;
        };
        open_thread = rw statuses negotiates;
      }

  after_turn-ok :
      (thread : List NegotiationEntry) (side : String) (parsed : ParsedRound)
      (s : MockNegotiationStore) {t : List NegotiationEntry} {run : RoundRun}
      → Holds k thread s
      → (after_turn c k thread side parsed s).0 ≡ ok (t, run)
      → Extends thread t side (after_turn c k thread side parsed s).1
  unfolding after_turn after_append turn_input
  after_turn-ok thread side parsed s {t} {run} h p =
      let input = turn_input c k (length thread + 1) side parsed in
      let (e, appended, p', state) =
        bind-ok (append_entry c.today k input) (after_append c k thread side) s p in
      let s' = (append_entry c.today k input s).1 in
      let x = append_entry-Holds thread input s h appended in
      let (t', loaded, p'', state') =
        bind-ok (reload c k)
          (λ new. pure (new, record { round_number = length thread + 1; side = side })) s' p' in
      let (same, kept) = reload-ok (thread ++ e ∷ []) s' x.holds loaded in
      let named : t ≡ thread ++ e ∷ [] = cc (p'', same) in rw (state, state', kept, named) x

  -- A round that succeeds puts one entry behind the thread, of the side whose turn it is, and the
  -- thread still negotiates in the store.
  pub run_round-ok :
      (thread : List NegotiationEntry) (s : MockNegotiationStore) {t : List NegotiationEntry}
      {run : RoundRun}
      → Holds k thread s
      → (run_round c k thread s).0 ≡ ok (t, run)
      → (side : String) × (next_side thread ≡ ok side)
        × Extends thread t side (run_round c k thread s).1
  unfolding run_round after_side
  run_round-ok thread s {t} {run} h p =
      let n = length thread + 1 in
      let (side, turn, p₁, s₁) =
        bind-ok (read (λ _. next_side thread)) (after_side c k thread) s p in
      let (parsed, took, p₂, s₂) =
        bind-ok (guarded_turn c k n side thread) (after_turn c k thread side) s p₁ in
      let still = guarded_turn-ok n side thread s took in
      (side, turn, rw (s₁, s₂, still) (after_turn-ok thread side parsed s h (rw still at p₂)))
