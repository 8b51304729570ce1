-- ===== src/Negotiation/Engine.antt =====
-- negotiation/engine.py and rounds.py: the bounded rounds of a negotiation. The agents are a
-- parameter, as is SHA-256.
pub mod Round
pub mod Loop
pub mod Agreement
use Prim.Native.String
use issuekit.Prelude.{
  ℕ, zero, suc, ◌+◌, String, Bool, true, false, not, ◌&&◌, ◌||◌, Option, none, some, List, [], ◌∷◌,
  ◌++◌, if◌then◌else◌, ltb, eqb, Result, ok, err, Error, workflow, timeout_error, lookup_error,
  guard, ◌>>=◌, ◌>>◌, ◌==◌, length,
}
use issuekit.Prelude.Decimal.{show}
use issuekit.Negotiation.Model.{Verdict, ThreadStatus, NegotiationEntry, is_negotiating}
use issuekit.Negotiation.Thread.{
  Outcome, negotiating, agreed, blocked, escalate, next_side, require_supported_thread,
  latest_contract, evaluate_convergence,
}
use issuekit.Negotiation.Store.{
  MockNegotiationStore, EntryInput, Exec, after_checks, append_entry, set_status, get_status,
  settle_thread_members,
}
use issuekit.Negotiation.Store.Order.{get_thread}

pub record ParsedRound : Type 0 where
  pub side : String
  pub verdict : Verdict
  pub contract : Option String
  pub notes : String

-- What a run of an agent comes to, with its parsed output.
pub record AgentRun : Type 0 where
  pub timed_out : Bool
  pub exit_code : ℕ
  pub output : Result ParsedRound

-- An agent is asked for a round of a side, and sees the thread; the call itself may fail.
abbrev pub Agent : Type 0
Agent = ℕ → String → List NegotiationEntry → Result AgentRun

pub record RoundRun : Type 0 where
  pub round_number : ℕ
  pub side : String

pub record NegotiationResult : Type 0 where
  pub thread_id : String
  pub outcome : Outcome
  pub round_count : ℕ
  pub final_contract : Option String
  pub round_runs : List RoundRun

module _ {A : Type 0} where
  abbrev pub pure : A → Exec A
  pure a s = (ok a, s)

  abbrev pub raise : Error → Exec A
  raise e s = (err e, s)

  abbrev pub read : (MockNegotiationStore → Result A) → Exec A
  read f s = (f s, s)

  abbrev pub bind : {B : Type 0} → Exec A → (A → Exec B) → Exec B
  bind m f s = let (r, s') = m s in after_checks r f s'

unfoldable pub run_side_turn : Agent → ℕ → String → List NegotiationEntry → Result ParsedRound
run_side_turn agent round_number side thread = do
  run ← agent round_number side thread
  guard (not run.timed_out) timeout_error
  guard (eqb run.exit_code 0) (workflow "agent_failed")
  parsed ← run.output
  guard (parsed.side == side) (workflow "invalid_negotiation_side")
  ok parsed

-- `_entry_title`
abbrev verdict_value : Verdict → String
verdict_value Verdict.propose = "propose"
verdict_value Verdict.counter = "counter"
verdict_value Verdict.agree = "agree"
verdict_value Verdict.blocked = "blocked"

unfoldable pub entry_title : String → ParsedRound → String
entry_title side parsed = String.◌++◌ side (String.◌++◌ " " (verdict_value parsed.verdict))

-- The origin of an entry; `source_ref` names the issue or the proposal.
unfoldable pub entry_origin : String → String → ℕ → String
entry_origin source_ref side round_number =
    String.◌++◌ source_ref
      (String.◌++◌ "@" (String.◌++◌ side (String.◌++◌ ":round-" (show round_number))))

unfoldable pub negotiation_result :
    List NegotiationEntry → Outcome → List RoundRun → Result NegotiationResult
negotiation_result [] outcome runs = err lookup_error
negotiation_result (first ∷ thread) outcome runs = ok (record {
  thread_id = first.thread_id;
  outcome = outcome;
  round_count = length (first ∷ thread);
  final_contract = latest_contract (first ∷ thread);
  round_runs = runs;
})

abbrev pub is_open : Outcome → Bool
is_open negotiating = true
is_open _ = false

-- What an invocation is run with.
pub record Context : Type 0 where
  pub sha256 : String → String
  pub agent : Agent
  pub source_ref : String
  pub today : String
  pub max_rounds : ℕ

unfoldable pub set_terminal_status : String → Outcome → List NegotiationEntry → Exec (Unit {0})
set_terminal_status thread_id agreed thread =
    set_status thread_id ThreadStatus.agreed (latest_contract thread)
set_terminal_status thread_id blocked thread =
    bind (set_status thread_id ThreadStatus.blocked none) (λ _. settle_thread_members thread_id)
set_terminal_status thread_id _ thread = pure tt

module _ (c : Context) (thread_id : String) where
  pub set_terminal_status_if_converged : List NegotiationEntry → Exec (Unit {0})
  set_terminal_status_if_converged thread = bind (read (get_status thread_id)) (λ status.
      if not (is_negotiating status)
      then pure tt
      else set_terminal_status thread_id (evaluate_convergence c.sha256 thread) thread)

  -- The `try` of a turn: a thread that converged gets its status before the error goes on. An agent fails
  -- with an error of the kinds that are caught (timeout, workflow and parse errors) and no other.
  unfoldable pub guarded_turn : ℕ → String → List NegotiationEntry → Exec ParsedRound
  guarded_turn round_number side thread = elim (run_side_turn c.agent round_number side thread) [
    | ok parsed ↦ pure parsed
    | err e ↦ bind (set_terminal_status_if_converged thread) (λ _. raise e)
  ]

  unfoldable pub turn_input : ℕ → String → ParsedRound → EntryInput
  turn_input round_number side parsed = record {
    side = side;
    verdict = parsed.verdict;
    title = entry_title side parsed;
    body = parsed.notes;
    origin = entry_origin c.source_ref side round_number;
    contract = parsed.contract;
  }

  unfoldable pub reload : Exec (List NegotiationEntry)
  reload =
      bind (read (get_thread thread_id))
        (λ thread. bind (read (λ _. require_supported_thread thread)) (λ _. pure thread))

  unfoldable pub after_append :
      List NegotiationEntry → String → NegotiationEntry → Exec (List NegotiationEntry × RoundRun)
  after_append thread side entry =
      bind reload
        (λ thread'. pure (thread', record { round_number = length thread + 1; side = side }))

  unfoldable pub after_turn :
      List NegotiationEntry → String → ParsedRound → Exec (List NegotiationEntry × RoundRun)
  after_turn thread side parsed =
      bind (append_entry c.today thread_id (turn_input (length thread + 1) side parsed))
        (after_append thread side)

  unfoldable pub after_side :
      List NegotiationEntry → String → Exec (List NegotiationEntry × RoundRun)
  after_side thread side =
      bind (guarded_turn (length thread + 1) side thread) (after_turn thread side)

  -- The body of the `while` loop up to the convergence test: the thread with the new entry.
  unfoldable pub run_round : List NegotiationEntry → Exec (List NegotiationEntry × RoundRun)
  run_round thread = bind (read (λ _. next_side thread)) (after_side thread)

  unfoldable pub finish : Outcome → List NegotiationEntry → List RoundRun → Exec NegotiationResult
  finish outcome thread runs =
      bind (set_terminal_status thread_id outcome thread)
        (λ _. read (λ _. negotiation_result thread outcome runs))

  -- The `while` loop, with fuel for its rounds; `none` means that the fuel ran out.
  unfoldable pub loop :
      ℕ
      → List NegotiationEntry
      → List RoundRun
      → MockNegotiationStore
      → Option (Result NegotiationResult × MockNegotiationStore)
  loop zero thread runs s = none
  loop (suc fuel) thread runs s = elim (ltb (length thread) c.max_rounds) [
    | false ↦ some (negotiation_result thread escalate runs, s)
    | true ↦ elim (run_round thread s).0 [
      | err e ↦ some (err e, (run_round thread s).1)
      | ok (thread', run) ↦ elim (is_open (evaluate_convergence c.sha256 thread')) [
        | true ↦ loop fuel thread' (runs ++ run ∷ []) (run_round thread s).1
        | false ↦ some (
            finish (evaluate_convergence c.sha256 thread') thread' (runs ++ run ∷ [])
              (run_round thread s).1)
      ]
    ]
  ]

  -- A round adds an entry, so `max_rounds` and one are fuel enough.
  unfoldable pub run_rounds :
      List NegotiationEntry
      → List RoundRun
      → MockNegotiationStore
      → Option (Result NegotiationResult × MockNegotiationStore)
  run_rounds thread runs s =
      let outcome = evaluate_convergence c.sha256 thread in
      let rest = loop (suc c.max_rounds) thread runs s in
      if is_open outcome then rest else some (finish outcome thread runs s)
