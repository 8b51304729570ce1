-- ===== src/Serve/Loop/Heads.antt =====
-- About the polling loop of commands/serve/loop.py: its heads, and how it returns from them.
use issuekit.Prelude.{
  ℕ, suc, Option, none, ◌+◌, ◌≤◌, ◌<◌, ◌≡◌, refl, Bool, true, false, some, if◌then◌else◌, arith,
  Bool-cases, inl, inr, ◌⊎◌,
}
use issuekit.Serve.Loop.{
  Status, idle, error, failed, success, PollResult, World, Options, Head, Turn, again, exit,
  stopped, reached, after_failure, after_idle, after_success, after_poll, turn, first_head,
  run_from, run_poll_loop,
}

module _ {W : Type 0} (world : World W) (options : Options) where
  -- A head that the loop comes to.
  pub data Reaches (start : Head W) : Head W → Type 0 where
    begin : Reaches start start
    next :
        {h h' : Head W}
        → Reaches start h
        → (world.controller h.world).event ≡ false
        → turn world options h ≡ again h'
        → Reaches start h'

  -- The bounds that hold at a head.
  pub record IsHead (h : Head W) : Type 0 where
    pub least : 1 ≤ h.backoff
    pub most : h.backoff ≤ 60
    pub failures :
        0 < options.max_consecutive_failures
        → h.consecutive_failures < options.max_consecutive_failures
    pub room : (h.count ≡ 0) ⊎ (reached options.max_count h.count ≡ false)
    pub attempts : h.count + h.consecutive_failures ≤ h.attempt

  -- How the loop returns from a head.
  pub data Returns (h : Head W) : ℕ × W → Type 0 where
    signalled : (world.controller h.world).event ≡ true → Returns h (0, world.on_stopped h.world)
    exited :
        (code : ℕ) (w : W)
        → (world.controller h.world).event ≡ false
        → turn world options h ≡ exit code w
        → Returns h (code, w)
    halted :
        (w : W)
        → (world.controller h.world).event ≡ false
        → turn world options h ≡ stopped w
        → Returns h (0, world.on_stopped w)

  -- What a run of this many turns comes to: a head after as many polls, or a return from a head before.
  pub data Runs (start : Head W) (fuel : ℕ) : Option (ℕ × W) → Type 0 where
    running : (h : Head W) → Reaches start h → IsHead h → h.attempt ≡ fuel → Runs start fuel none
    returned :
        (h : Head W) (r : ℕ × W)
        → Reaches start h
        → IsHead h
        → h.attempt < fuel
        → Returns h r
        → Runs start fuel (some r)

  is_exit : Turn W → Bool
  is_exit (exit code w) = true
  is_exit _ = false

  exit-cases : (t : Turn W) → is_exit t ≡ true → (code : ℕ) × (w : W) × (t ≡ exit code w)
  unfolding is_exit
  exit-cases (again h) e = cc
  exit-cases (exit code w) e = (code, w, refl)
  exit-cases (stopped w) e = cc

  after_poll_once :
      (status : Status) (result : PollResult) (h : Head W)
      → options.once ≡ true
      → is_exit (after_poll world options status result h) ≡ true
  unfolding after_poll after_idle after_failure after_success is_exit
  after_poll_once idle result h once = ground arith
  after_poll_once error result h once = ground arith
  after_poll_once failed result h once = ground arith
  after_poll_once success result h once = ground arith

  turn_once : (h : Head W) → options.once ≡ true → is_exit (turn world options h) ≡ true
  unfolding turn
  turn_once h once = after_poll_once _ _ _ once

  -- A loop that is to run once returns at its first turn, whatever the poll comes to.
  pub run_poll_loop_once :
      (fuel backoff : ℕ) (w : W)
      → options.once ≡ true
      → (r : ℕ × W) × (run_poll_loop world options (suc fuel) backoff w ≡ some r)
  unfolding run_poll_loop run_from
  run_poll_loop_once fuel backoff w once =
      let h = first_head world options backoff w in
      elim (Bool-cases (world.controller h.world).event) [
        | inl asked ↦ ((0, world.on_stopped h.world), rw (asked, if◌then◌else◌) refl)
        | inr open_event ↦
            let (code, w', ended) = exit-cases (turn world options h) (turn_once h once) in
            ((code, w'), rw (open_event, if◌then◌else◌, ended) refl)
      ]
