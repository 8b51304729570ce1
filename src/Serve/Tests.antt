-- ===== src/Serve/Tests.antt =====
-- The polling loop in a world in which every run fails, with a limit of three failures.
use issuekit.Prelude.{ℕ, false, none}
use issuekit.Serve.Loop.{Status, World, Options}

abbrev world : World ℕ
world = record {
  controller = λ w. record { event = false; abort_event = false; signal_count = 0 };
  poll = λ attempt backoff w.
      (record { status = Status.failed; exit_code = 3; recreate_store = false }, w);
  on_idle = λ attempt w. w;
  on_success = λ result count w. w;
  on_stopped = λ w. w;
  on_failure_limit = λ result failures w. w;
  recreate_store = λ w. w;
  sleep = λ seconds w. w;
}

abbrev options : Options
options = record {
  once = false;
  interval = 5;
  max_count = none;
  max_consecutive_failures = 3;
  stop_before_retry_sleep = false;
  abort_failed_exit_code = none;
  sleep_after_success = false;
}
