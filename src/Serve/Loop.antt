-- ===== src/Serve/Loop.antt =====
-- commands/serve/loop.py: the polling loop. The world is a parameter: what a poll, a callback or a
-- sleep does, and whether a signal has come meanwhile. Seconds are natural numbers.
pub mod Heads
use Prim.Native.Nat.{min}
use issuekit.Prelude.{
  ℕ, zero, suc, ◌+◌, ◌*◌, Bool, true, false, not, ◌&&◌, ◌||◌, Option, none, some, if◌then◌else◌,
  ltb, leb, is_some,
}

unfoldable pub backoff_initial_sec : ℕ
backoff_initial_sec = 1

unfoldable pub backoff_max_sec : ℕ
backoff_max_sec = 60

-- `Backoff.step`
unfoldable pub step : ℕ → ℕ
step current = min (current * 2) backoff_max_sec

pub data Status : Type 0 where
  idle error failed success : Status

pub record PollResult : Type 0 where
  pub status : Status
  pub exit_code : ℕ
  pub recreate_store : Bool

-- The signals that a controller has counted, with its two events.
pub record ShutdownController : Type 0 where
  pub event : Bool
  pub abort_event : Bool
  pub signal_count : ℕ

-- `handle_signal`: the first asks to stop, the second to abort.
unfoldable pub handle_signal : ShutdownController → ShutdownController
handle_signal c = record {
  event = true;
  abort_event = c.abort_event || leb 2 (c.signal_count + 1);
  signal_count = c.signal_count + 1;
}

-- The world `W` holds the controller, which signals may change during every call.
pub record World (W : Type 0) : Type 0 where
  pub controller : W → ShutdownController
  pub poll : ℕ → ℕ → W → PollResult × W
  pub on_idle : ℕ → W → W
  pub on_success : PollResult → ℕ → W → W
  pub on_stopped : W → W
  pub on_failure_limit : PollResult → ℕ → W → W
  pub recreate_store : W → W
  pub sleep : ℕ → W → W

-- The arguments of `run_poll_loop` that are not callbacks; an absent callback does nothing.
pub record Options : Type 0 where
  pub once : Bool
  pub interval : ℕ
  pub max_count : Option ℕ
  pub max_consecutive_failures : ℕ
  pub stop_before_retry_sleep : Bool
  pub abort_failed_exit_code : Option ℕ
  pub sleep_after_success : Bool

-- The loop's variables.
pub record Head (W : Type 0) : Type 0 where
  pub count : ℕ
  pub attempt : ℕ
  pub consecutive_failures : ℕ
  pub backoff : ℕ
  pub world : W

-- How a turn ends: at the head of the loop, with `return`, or with `break`.
pub data Turn (W : Type 0) : Type 0 where
  again : Head W → Turn W
  exit : ℕ → W → Turn W
  stopped : W → Turn W

abbrev pub reached : Option ℕ → ℕ → Bool
reached none count = false
reached (some max_count) count = leb max_count count

abbrev pub is_failed : Status → Bool
is_failed failed = true
is_failed _ = false

module _ {W : Type 0} (world : World W) (options : Options) where
  abbrev requested : W → Bool
  requested w = (world.controller w).event

  -- The exit code of a failed run that was aborted.
  abbrev aborted : Status → W → Option ℕ
  aborted status w =
      if is_failed status && (world.controller w).abort_event
      then options.abort_failed_exit_code
      else none

  abbrev retry : Head W → Turn W
  retry h =
      if options.stop_before_retry_sleep && requested h.world
      then stopped h.world
      else again (record h { backoff = step h.backoff; world = world.sleep h.backoff h.world })

  abbrev after_abort : Option ℕ → Head W → Turn W
  after_abort none h = retry h
  after_abort (some code) h = exit code h.world

  after_failure : PollResult → Head W → Turn W
  after_failure result h =
      if ltb 0 options.max_consecutive_failures
        && leb options.max_consecutive_failures h.consecutive_failures
      then exit 1 (world.on_failure_limit result h.consecutive_failures h.world)
      else if options.once
      then exit result.exit_code h.world
      else after_abort (aborted result.status h.world) h

  after_idle : Head W → Turn W
  after_idle h =
      let w = world.on_idle h.attempt h.world in
      if options.once then exit 0 w else again (record h { world = world.sleep options.interval w })

  after_success_sleep : Head W → Turn W
  after_success_sleep h =
      if requested h.world
      then stopped h.world
      else let w = world.sleep options.interval h.world in
        if requested w then stopped w else again (record h { world = w })

  after_success : PollResult → Head W → Turn W
  after_success result h =
      let h' = record h { world = world.on_success result h.count h.world } in
      if options.once || reached options.max_count h.count
      then exit 0 h'.world
      else if options.sleep_after_success
      then after_success_sleep h'
      else again h'

  after_poll : Status → PollResult → Head W → Turn W
  after_poll idle result h = after_idle (record h { consecutive_failures = 0 })
  after_poll error result h =
      after_failure result (record h { consecutive_failures = h.consecutive_failures + 1 })
  after_poll failed result h =
      after_failure result (record h { consecutive_failures = h.consecutive_failures + 1 })
  after_poll success result h =
      after_success result
        (record h { count = h.count + 1; consecutive_failures = 0; backoff = backoff_initial_sec })

  -- The body of the `while` loop.
  pub turn : Head W → Turn W
  turn h =
      let (result, w) = world.poll (h.attempt + 1) h.backoff h.world in
      let w' = if result.recreate_store then world.recreate_store w else w in
      after_poll result.status result (record h { attempt = h.attempt + 1; world = w' })

  pub first_head : ℕ → W → Head W
  first_head backoff w = record {
    count = 0;
    attempt = 0;
    consecutive_failures = 0;
    backoff = backoff;
    world = w;
  }

  -- The loop, with fuel for its turns; the result is the exit code.
  pub run_from : ℕ → Head W → Option (ℕ × W)
  run_from zero h = none
  run_from (suc fuel) h =
      if requested h.world then some (0, world.on_stopped h.world) else elim (turn h) [
        | again h' ↦ run_from fuel h'
        | exit code w ↦ some (code, w)
        | stopped w ↦ some (0, world.on_stopped w)
      ]

  pub run_poll_loop : ℕ → ℕ → W → Option (ℕ × W)
  run_poll_loop fuel backoff w = run_from fuel (first_head backoff w)
