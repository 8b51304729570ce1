-- ===== src/Negotiation/Engine/Agreement.antt =====
-- What it means that a negotiation ends agreed.
use mathlib.Core.Path.{subst}
use issuekit.Prelude.{
  ℕ, zero, suc, ◌+◌, String, ◌≡◌, refl, true, Option, some, List, [], ◌∷◌, ◌++◌, Result, ok, err,
  length, ap, ◌∙◌, Result-cases, Bool-cases, inl, inr, ltb, any,
}
use issuekit.Prelude.Dict.{get}
use issuekit.Negotiation.Model.{ThreadStatus, NegotiationEntry, is_agree}
use issuekit.Negotiation.Thread.{
  negotiating, agreed, escalate, evaluate_convergence, latest_contract, contract_hash,
  is_counterpart,
}
use issuekit.Negotiation.Thread.Freeze.{freeze_agreed, hashed_contract}
use issuekit.Negotiation.Store.{MockNegotiationStore, or_latest}
use issuekit.Negotiation.Store.Checks.{set_status-ok}
use issuekit.Negotiation.Engine.{
  RoundRun, NegotiationResult, Context, is_open, negotiation_result, set_terminal_status, finish,
  run_round, loop, run_rounds, read,
}
use issuekit.Negotiation.Engine.Round.{Holds, run_round-ok, bind-ok}
use issuekit.Negotiation.Engine.Loop.{negotiation_result-ok, is_open-negotiating, length-snoc}

-- The store says agreed, and has frozen the contract of the last entry, which agrees to it; an
-- earlier entry of the other side has a contract of the same hash.
pub record IsSettled (c : Context) (k : String) (res : NegotiationResult) (s : MockNegotiationStore)
    : Type 0 where
  pub thread : List NegotiationEntry
  pub last : NegotiationEntry
  pub hash : String
  pub stored : get k s.threads ≡ some (thread ++ last ∷ [])
  pub status : get k s.statuses ≡ some ThreadStatus.agreed
  pub frozen : get k s.agreed_contracts ≡ some last.contract
  pub reported : res.final_contract ≡ last.contract
  pub counted : res.round_count ≡ length thread + 1
  pub hashed : contract_hash c.sha256 last.contract ≡ some hash
  pub agrees : is_agree last.verdict ≡ true
  pub matched : any (is_counterpart c.sha256 last.side hash) thread ≡ true

module _ (c : Context) (k : String) where
  finish-IsSettled :
      (t : List NegotiationEntry) (e : NegotiationEntry) (runs : List RoundRun)
      (s : MockNegotiationStore) {res : NegotiationResult}
      → Holds k (t ++ e ∷ []) s
      → evaluate_convergence c.sha256 t ≡ negotiating
      → (finish c k (evaluate_convergence c.sha256 (t ++ e ∷ [])) (t ++ e ∷ []) runs s).0 ≡ ok res
      → res.outcome ≡ agreed
      → IsSettled c k res
          (finish c k (evaluate_convergence c.sha256 (t ++ e ∷ [])) (t ++ e ∷ []) runs s).1
  unfolding finish set_terminal_status
  finish-IsSettled t e runs s {res} h before p o =
      let full = t ++ e ∷ [] in
      let outcome = evaluate_convergence c.sha256 full in
      let (u, set, made, state) =
        bind-ok (set_terminal_status k outcome full)
          (λ _. read (λ _. negotiation_result full outcome runs)) s p in
      let (same, count, final) = negotiation_result-ok full outcome runs made in
      let now : evaluate_convergence c.sha256 full ≡ agreed = cc (same, o) in
      let (hash, newest, hashed, agrees, matched) = freeze_agreed c.sha256 t e before now in
      let (text, contract, nonempty) = hashed_contract c.sha256 e.contract hash hashed in
      let (threads, status, frozen) =
        set_status-ok k ThreadStatus.agreed (latest_contract full) s full h.stored
          (rw now at set) in
      let kept : or_latest (latest_contract full) full ≡ e.contract =
        rw (newest, contract, nonempty) refl in
      rw state (
        rw now (record {
          thread = t;
          last = e;
          hash = hash;
          stored = rw threads h.stored;
          status = status;
          frozen = frozen refl ∙ ap some kept;
          reported = final ∙ newest;
          counted = count ∙ length-snoc t e;
          hashed = hashed;
          agrees = agrees;
          matched = matched;
        }))

  finished :
      (thread t : List NegotiationEntry) (e : NegotiationEntry) (runs : List RoundRun)
      (s s' : MockNegotiationStore) {res : NegotiationResult}
      → t ≡ thread ++ e ∷ []
      → Holds k t s
      → evaluate_convergence c.sha256 thread ≡ negotiating
      → ◌≡◌ {A = Option (Result NegotiationResult × MockNegotiationStore)}
          (some (finish c k (evaluate_convergence c.sha256 t) t runs s))
          (some (ok res, s'))
      → res.outcome ≡ agreed
      → IsSettled c k res s'
  finished thread t e runs s s' {res} same h before p o =
      let held : Holds k (thread ++ e ∷ []) s = rw same at h in
      let ended =
        finish c k (evaluate_convergence c.sha256 (thread ++ e ∷ [])) (thread ++ e ∷ []) runs s in
      let q : ◌≡◌ {A = Option (Result NegotiationResult × MockNegotiationStore)} (some ended)
          (some (ok res, s')) =
        rw same at p in
      let given : ended.0 ≡ ok res = cc q in
      let final : ended.1 ≡ s' = cc q in
      subst (IsSettled c k res) final (finish-IsSettled thread e runs s held before given o)

  -- A loop that ends with the outcome agreed leaves a settled thread in the store.
  loop-IsSettled :
      (fuel : ℕ) (thread : List NegotiationEntry) (runs : List RoundRun)
      (s s' : MockNegotiationStore) {res : NegotiationResult}
      → Holds k thread s
      → evaluate_convergence c.sha256 thread ≡ negotiating
      → loop c k fuel thread runs s ≡ some (ok res, s')
      → res.outcome ≡ agreed
      → IsSettled c k res s'
  unfolding loop
  loop-IsSettled zero thread runs s s' h before p o = cc
  loop-IsSettled (suc fuel) thread runs s s' {res} h before p o =
      elim (Bool-cases (ltb (length thread) c.max_rounds)) [
        | inr full ↦
            let stopped : ◌≡◌ {A = Option (Result NegotiationResult × MockNegotiationStore)}
                (some (negotiation_result thread escalate runs, s)) (some (ok res, s')) =
              rw (full, loop) at p in
            let (same, _, _) =
              negotiation_result-ok thread escalate runs {res = res} (cc stopped) in
            cc (same, o)
        | inl room ↦ elim (Result-cases (run_round c k thread s).0) [
          | inr (e, failed) ↦
              let stopped : ◌≡◌ {A = Option (Result NegotiationResult × MockNegotiationStore)}
                  (some (err e, (run_round c k thread s).1)) (some (ok res, s')) =
                rw (room, loop, failed) at p in
              cc stopped
          | inl ((t, run), went) ↦
              let (side, _, x) = run_round-ok c k thread s h went in
              elim (Bool-cases (is_open (evaluate_convergence c.sha256 t))) [
                | inl more ↦
                    loop-IsSettled fuel t (runs ++ run ∷ []) (run_round c k thread s).1 s' x.holds
                      (is_open-negotiating _ more) (rw (room, loop, went, more) at p) o
                | inr converged ↦
                    let s₁ = (run_round c k thread s).1 in
                    let done : ◌≡◌ {A = Option (Result NegotiationResult × MockNegotiationStore)}
                        (some
                          (finish c k (evaluate_convergence c.sha256 t) t (runs ++ run ∷ []) s₁))
                        (some (ok res, s')) =
                      rw (room, loop, went, converged) at p in
                    finished thread t x.entry (runs ++ run ∷ []) s₁ s' x.longer x.holds before done
                      o
              ]
        ]
      ]

  -- When `run_rounds` on a negotiating thread that the store holds gives a result whose outcome is
  -- agreed, the store has the status agreed for the thread and the contract of its last entry
  -- frozen, that is what the result reports, the last entry agrees to it, and an entry of the other
  -- side before it has a contract of the same hash.
  pub run_rounds-IsSettled :
      (thread : List NegotiationEntry) (runs : List RoundRun) (s s' : MockNegotiationStore)
      {res : NegotiationResult}
      → Holds k thread s
      → evaluate_convergence c.sha256 thread ≡ negotiating
      → run_rounds c k thread runs s ≡ some (ok res, s')
      → res.outcome ≡ agreed
      → IsSettled c k res s'
  unfolding run_rounds
  run_rounds-IsSettled thread runs s s' h before p o =
      loop-IsSettled (suc c.max_rounds) thread runs s s' h before (rw before at p) o
