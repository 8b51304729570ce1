-- ===== src/Negotiation/Engine/Loop.antt =====
-- The loop of a negotiation: it ends, within its bound, in what it reports.
use issuekit.Prelude.{
  ℕ, zero, suc, ◌+◌, ◌-◌, ◌<◌, String, ◌≡◌, refl, true, some, List, [], ◌∷◌, ◌++◌, arith, Result,
  ok, err, length, Result-cases, Bool-cases, inl, inr, ltb,
}
use issuekit.Negotiation.Model.{NegotiationEntry}
use issuekit.Negotiation.Thread.{
  Outcome, negotiating, agreed, blocked, escalate, evaluate_convergence, latest_contract,
}
use issuekit.Negotiation.Store.{MockNegotiationStore}
use issuekit.Negotiation.Engine.{
  RoundRun, NegotiationResult, Context, is_open, negotiation_result, finish, run_round, loop,
  run_rounds,
}
use issuekit.Negotiation.Engine.Round.{Holds, run_round-ok}

pub is_open-negotiating : (o : Outcome) → is_open o ≡ true → o ≡ negotiating
is_open-negotiating negotiating h = refl
is_open-negotiating agreed h = cc
is_open-negotiating blocked h = cc
is_open-negotiating escalate h = cc

pub length-snoc :
    (t : List NegotiationEntry) (e : NegotiationEntry) → length (t ++ e ∷ []) ≡ length t + 1
length-snoc [] e = refl
length-snoc (x ∷ t) e = omega (arith, length-snoc t e)

pub negotiation_result-ok :
    (t : List NegotiationEntry) (o : Outcome) (runs : List RoundRun) {res : NegotiationResult}
    → negotiation_result t o runs ≡ ok res
    → (res.outcome ≡ o) × (res.round_count ≡ length t) × (res.final_contract ≡ latest_contract t)
unfolding negotiation_result
negotiation_result-ok [] o runs h = cc
negotiation_result-ok (e ∷ t) o runs {res} h = (ground arith, ground arith, ground arith)

module _ (c : Context) (k : String) where
  -- With fuel for the rounds that are left the loop gives an answer.
  loop_total :
      (fuel : ℕ) (thread : List NegotiationEntry) (runs : List RoundRun) (s : MockNegotiationStore)
      → Holds k thread s
      → c.max_rounds - length thread < fuel
      → (r : Result NegotiationResult × MockNegotiationStore) × (loop c k fuel thread runs s
          ≡ some r)
  unfolding loop
  loop_total zero thread runs s h bound = elim bound [ ]
  loop_total (suc fuel) thread runs s h bound =
      elim (Bool-cases (ltb (length thread) c.max_rounds)) [
        | inr full ↦ ((negotiation_result thread escalate runs, s), rw (full, loop))
        | inl room ↦ elim (Result-cases (run_round c k thread s).0) [
          | inr (e, failed) ↦ ((err e, (run_round c k thread s).1), rw (room, loop, failed))
          | inl ((t, run), went) ↦
              let (side, _, x) = run_round-ok c k thread s h went in
              let rest =
                loop_total fuel t (runs ++ run ∷ []) (run_round c k thread s).1 x.holds
                  (let shorter = x.longer in ground (arith, length-snoc thread x.entry)) in
              elim (Bool-cases (is_open (evaluate_convergence c.sha256 t))) [
                | inl more ↦ (rest.0, rw (room, loop, went, more) rest.1)
                | inr converged ↦ (
                  finish c k (evaluate_convergence c.sha256 t) t (runs ++ run ∷ [])
                      (run_round c k thread s).1,
                  rw (room, loop, went, converged),
                )
              ]
        ]
      ]

  -- For a thread that a well-formed store holds, a negotiation ends: `max_rounds` and one rounds of
  -- fuel are enough.
  pub run_rounds_total :
      (thread : List NegotiationEntry) (runs : List RoundRun) (s : MockNegotiationStore)
      → Holds k thread s
      → (r : Result NegotiationResult × MockNegotiationStore) × (run_rounds c k thread runs s
          ≡ some r)
  unfolding run_rounds
  run_rounds_total thread runs s h =
      elim (Bool-cases (is_open (evaluate_convergence c.sha256 thread))) [
        | inl more ↦ rw more (loop_total (suc c.max_rounds) thread runs s h (omega arith))
        | inr converged ↦
            (finish c k (evaluate_convergence c.sha256 thread) thread runs s, rw converged)
      ]
