-- ===== src/Core/Address.antt =====
-- core.py: target addresses, `repo`, `worker.repo` and `worker.repo@machine`.
pub mod Laws
use Prim.Native.String.{◌++◌}
use issuekit.Prelude.{
  String, Bool, true, false, not, ◌&&◌, ◌||◌, Option, none, some, if◌then◌else◌, is_empty, Result,
  ok, err, guard, value_error, ◌>>=◌, ◌>>◌,
}
use issuekit.Prelude.Text.{strip, cut, has_char}
use issuekit.Core.Token.{is_valid_workflow_token}

pub record TargetAddress : Type 0 where
  pub repo : String
  pub worker : String
  pub machine : String

unfoldable pub directed_worker : TargetAddress → String
directed_worker a =
    if not (is_empty a.worker) && not (is_empty a.machine)
    then a.worker ++ ("@" ++ a.machine)
    else a.worker

-- The part of `parse_target_address` after the machine has been split off.
unfoldable pub unqualified_address : String → String → Result TargetAddress
unqualified_address text machine = elim (cut b'.' text) [
  | none ↦ do
    guard (is_empty machine) value_error
    guard (is_valid_workflow_token text) value_error
    ok (record { repo = text; worker = ""; machine = "" })
  | some (worker, repo) ↦ do
    guard (not (is_empty worker || is_empty repo || has_char b'.' repo)) value_error
    guard (is_valid_workflow_token worker) value_error
    guard (is_valid_workflow_token repo) value_error
    ok (record { repo = repo; worker = worker; machine = machine })
]

unfoldable pub parse_target_address : String → Result TargetAddress
parse_target_address raw =
    let text = strip raw in
    if is_empty text then err value_error else elim (cut b'@' text) [
      | none ↦ unqualified_address text ""
      | some (unqualified, machine) ↦ do
        guard (not (is_empty machine)) value_error
        guard (is_valid_workflow_token machine) value_error
        unqualified_address unqualified machine
    ]
