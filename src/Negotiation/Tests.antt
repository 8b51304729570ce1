-- ===== src/Negotiation/Tests.antt =====
-- A negotiation that ends agreed, and other concrete inputs of the theorems on negotiations.
use issuekit.Prelude.{
  String, ◌≡◌, refl, true, false, none, some, List, [], ◌∷◌, Result, ok, ◌≢◌, any, raised, arith,
  eq_iff,
}
use issuekit.Prelude.Dict.{get, put, pop}
use mathlib.Core.Path.{subst}
use issuekit.Core.Token.{is_valid_workflow_token}
use issuekit.Prelude.Decimal.{show}
use issuekit.Prelude.Text.{strip}
use issuekit.Negotiation.Model.{NegotiationEntry, Verdict, ThreadStatus}
use issuekit.Negotiation.Model
use issuekit.Negotiation.Thread.{
  is_counterpart, evaluate_convergence, contract_hash, latest_contract,
}
use issuekit.Negotiation.Thread
use issuekit.Negotiation.Store.{Threads, MockNegotiationStore, EntryInput, create_thread}
use issuekit.Negotiation.Store
use issuekit.Negotiation.Store.Ops.{Op, run_op, run_ops, SameContents, run_op-err}
use issuekit.Negotiation.Store.Invariant.{IsWellFormed, run_op-IsWellFormed, run_ops-IsWellFormed}
use issuekit.Negotiation.Store.Frozen.{Shows, run_ops-Shows}
use issuekit.Negotiation.Engine.{AgentRun, Context, NegotiationResult, RoundRun, run_rounds}
use issuekit.Negotiation.Engine
use issuekit.Negotiation.Store.Order
use issuekit.Negotiation.Engine.Round.{Holds}
use issuekit.Negotiation.Engine.Loop.{run_rounds_total}
use issuekit.Negotiation.Engine.Agreement.{IsSettled, run_rounds-IsSettled}
use issuekit.Negotiation.Thread.Freeze.{freeze_agreed}

abbrev new_store : MockNegotiationStore
new_store = record {
  now = record {
    threads = [];
    statuses = [];
    agreed_contracts = [];
    issue_refs = [];
    next_thread_id = 1;
    next_entry_id = 1;
  };
  file = none;
}

new_store-IsWellFormed : IsWellFormed new_store.now
unfolding get
new_store-IsWellFormed = record {
  fresh = λ n bound. (refl, refl);
  ascending = λ k entries p. cc;
  distinct = λ k entries p. cc;
  refs_agreed = λ k p. cc;
}

abbrev proposal : EntryInput
proposal = record {
  side = "provider";
  verdict = Verdict.propose;
  title = "users";
  body = "";
  origin = "issue#1";
  contract = some "GET /users";
}

abbrev pub proposed : NegotiationEntry
proposed = record {
  thread_id = "1";
  side = "provider";
  verdict = Verdict.propose;
  contract = some "GET /users";
  title = "users";
  body = "";
  origin = "issue#1";
  created = "2026-01-01";
  id = some 1;
}

abbrev ops : List Op
ops = Op.create "2026-01-01" proposal ∷ []

run_ops-IsWellFormed_example : IsWellFormed (run_ops ops new_store).now
run_ops-IsWellFormed_example = run_ops-IsWellFormed ops new_store new_store-IsWellFormed

abbrev opened : MockNegotiationStore
opened = record {
  now = record {
    threads = ("1", proposed ∷ []) ∷ [];
    statuses = ("1", ThreadStatus.negotiating) ∷ [];
    agreed_contracts = ("1", none) ∷ [];
    issue_refs = [];
    next_thread_id = 2;
    next_entry_id = 2;
  };
  file = none;
}

opened-run_ops : run_ops ops new_store ≡ opened
unfolding run_ops run_op create_thread Store.create_checks Store.create_body Store.create_made
    Store.make_entry Store.persist show Model.validate_entry_input Model.validate_contract
    Model.new_entry is_valid_workflow_token put pop
opened-run_ops = refl

opened-IsWellFormed : IsWellFormed opened.now
opened-IsWellFormed =
    subst (λ (s : MockNegotiationStore). IsWellFormed s.now) opened-run_ops
      run_ops-IsWellFormed_example

-- Whoever is asked agrees to the proposed contract.
abbrev context : Context
context = record {
  sha256 = λ text. text;
  agent = λ round_number side thread. ok (record {
    timed_out = false;
    exit_code = 0;
    output =
        ok (record {
          side = side;
          verdict = Verdict.agree;
          contract = some "GET /users";
          notes = "";
        });
  });
  source_ref = "issue#1";
  today = "2026-01-02";
  max_rounds = 4;
}

abbrev pub agreement : NegotiationEntry
agreement = record {
  thread_id = "1";
  side = "consumer";
  verdict = Verdict.agree;
  contract = some "GET /users";
  title = "consumer agree";
  body = "";
  origin = "issue#1@consumer:round-2";
  created = "2026-01-02";
  id = some 2;
}

abbrev pub settled : MockNegotiationStore
settled = record {
  now = record {
    threads = ("1", proposed ∷ agreement ∷ []) ∷ [];
    statuses = ("1", ThreadStatus.agreed) ∷ [];
    agreed_contracts = ("1", some "GET /users") ∷ [];
    issue_refs = [];
    next_thread_id = 2;
    next_entry_id = 3;
  };
  file = none;
}

abbrev result : NegotiationResult
result = record {
  thread_id = "1";
  outcome = Thread.agreed;
  round_count = 2;
  final_contract = some "GET /users";
  round_runs = record { round_number = 2; side = "consumer" } ∷ [];
}

opened-Holds : Holds "1" (proposed ∷ []) opened
unfolding get
opened-Holds = record { stored = refl; well_formed = opened-IsWellFormed }

proposed-negotiating : evaluate_convergence context.sha256 (proposed ∷ []) ≡ Thread.negotiating
unfolding evaluate_convergence Thread.latest_agree_matches_counterpart Thread.agreements_from
    contract_hash put Thread.normalized strip
proposed-negotiating = refl

agreement-agreed : evaluate_convergence context.sha256 (proposed ∷ agreement ∷ []) ≡ Thread.agreed
unfolding evaluate_convergence Thread.latest_agree_matches_counterpart Thread.agreements_from
    contract_hash put Thread.normalized strip
agreement-agreed = refl

run_rounds-settled : run_rounds context "1" (proposed ∷ []) [] opened ≡ some (ok result, settled)
unfolding run_rounds Engine.loop Engine.run_round Engine.after_side Engine.guarded_turn
    Engine.run_side_turn Engine.after_turn Engine.after_append Engine.reload Engine.turn_input
    Engine.entry_title Engine.entry_origin Engine.finish Engine.set_terminal_status
    Engine.negotiation_result Store.append_entry Store.append_checks Store.append_body
    Store.append_made Store.make_entry Store.persist Store.ensure_thread Store.ensure_negotiating
    Store.ensure_unique_origin Store.has_origin Store.set_status Store.set_status_checks
    Store.set_status_body evaluate_convergence Thread.latest_agree_matches_counterpart
    Thread.agreements_from contract_hash Thread.normalized Thread.latest_contract Thread.next_side
    Thread.other_side Thread.require_supported_thread Model.validate_entry_input
    Model.validate_contract Model.new_entry is_valid_workflow_token get put show strip
    Order.get_thread Order.sort_entries
run_rounds-settled = refl

run_rounds-IsSettled_example : IsSettled context "1" result settled
run_rounds-IsSettled_example =
    run_rounds-IsSettled context "1" (proposed ∷ []) [] opened settled opened-Holds
      proposed-negotiating run_rounds-settled refl

run_rounds_total_example :
    (r : Result NegotiationResult × MockNegotiationStore) × (run_rounds context "1"
        (proposed ∷ [])
        []
        opened
      ≡ some r)
run_rounds_total_example = run_rounds_total context "1" (proposed ∷ []) [] opened opened-Holds

freeze_agreed_example :
    (h : String) × (latest_contract (proposed ∷ agreement ∷ []) ≡ some "GET /users")
    × (contract_hash context.sha256 (some "GET /users") ≡ some h)
    × (true ≡ true)
    × (any (is_counterpart context.sha256 "consumer" h) (proposed ∷ []) ≡ true)
freeze_agreed_example =
    freeze_agreed context.sha256 (proposed ∷ []) agreement proposed-negotiating agreement-agreed

abbrev withdrawn : MockNegotiationStore
withdrawn = record opened {
  now = record opened.now { statuses = ("1", ThreadStatus.cancelled) ∷ [] };
}

withdrawn-run_op : (run_op (Op.cancel "1") opened).1 ≡ withdrawn
unfolding run_op Store.cancel_thread Store.cancel_checks Store.cancel_body Store.ensure_thread
    Store.persist get put
withdrawn-run_op = refl

withdrawn-IsWellFormed : IsWellFormed withdrawn.now
withdrawn-IsWellFormed =
    subst (λ (s : MockNegotiationStore). IsWellFormed s.now) withdrawn-run_op
      (run_op-IsWellFormed (Op.cancel "1") opened opened-IsWellFormed)

withdrawn-Shows : Shows "1" (proposed ∷ []) ThreadStatus.cancelled (some none) withdrawn.now
unfolding get
withdrawn-Shows = record { threads = refl; statuses = refl; contracts = refl }

run_ops-Shows_example :
    Shows "1"
      (proposed ∷ [])
      ThreadStatus.cancelled
      (some none)
      (run_ops (Op.append "2026-01-02" "1" proposal ∷ []) withdrawn).now
run_ops-Shows_example =
    run_ops-Shows "1" proposed [] ThreadStatus.cancelled (some none) refl
      (Op.append "2026-01-02" "1" proposal ∷ []) withdrawn withdrawn-IsWellFormed withdrawn-Shows

missing-raised : raised (run_op (Op.cancel "2") opened).0 ≡ true
unfolding run_op Store.cancel_thread Store.cancel_checks Store.ensure_thread get
missing-raised = refl

run_op-err_example : SameContents (run_op (Op.cancel "2") opened).1 opened
run_op-err_example = run_op-err (Op.cancel "2") opened missing-raised

abbrev first_agree : NegotiationEntry
first_agree = record proposed { verdict = Verdict.agree }

abbrev countering : NegotiationEntry
countering = record proposed { verdict = Verdict.counter; contract = some "GET /people" }

sides_differ : ◌≢◌ {A = String} "provider" "consumer"
sides_differ = λ p. ground (arith, eq_iff "provider" "consumer")
