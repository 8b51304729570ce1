-- ===== src/Guards/Branch.antt =====
-- guards/branch.py: lifecycle commands stay on the configured branch.
use issuekit.Prelude.{
  String, Bool, true, false, Option, none, some, if◌then◌else◌, ◌==◌, is_empty, Result, ok, err,
  workflow,
}
use issuekit.Config.{IssuekitConfig}

-- The first argument is the answer of `git_current_branch`.
unfoldable pub enforce_work_branch : Option String → IssuekitConfig → Bool → Result (Unit {0})
enforce_work_branch current config true = ok tt
enforce_work_branch none config false =
    if is_empty config.work_branch then ok tt else err (workflow "work_branch_guard")
enforce_work_branch (some current) config false =
    if is_empty config.work_branch
    then ok tt
    else if current == config.work_branch
    then ok tt
    else err (workflow "work_branch_guard")
