-- ===== src/Config.antt =====
-- config/model.py: the configuration of a checkout, as far as the modelled code reads it, and
-- config/values.py: Boolean values.
use issuekit.Prelude.{
  ℕ, String, Bool, true, false, Option, none, some, List, [], ◌∷◌, if◌then◌else◌, ◌||◌, ◌==◌,
  Result, ok, err, value_error,
}
use issuekit.Prelude.Text.{strip, lowers_to}
use issuekit.Core.WorkerKey

pub record WorkerIdentity : Type 0 where
  pub machine_id : String
  pub repo_id : String
  pub worker_id : String

-- An interval is in milliseconds.
pub record IssuekitConfig : Type 0 where
  pub project : String
  pub assignees : List String
  pub stages : List String
  pub default_implementer : String
  pub work_branch : String
  pub claim_sync : Bool
  pub claim_sync_interval : ℕ
  pub worker : Option WorkerIdentity

-- `value in names`
unfoldable pub has : String → List String → Bool
has value [] = false
has value (name ∷ names) = name == value || has value names

unfoldable pub worker_key : IssuekitConfig → Option String
worker_key config = elim config.worker [
  | none ↦ none
  | some worker ↦ some (WorkerKey.worker_key worker.repo_id worker.worker_id)
]

unfoldable pub qualified_worker_key : IssuekitConfig → Option String
qualified_worker_key config = elim config.worker [
  | none ↦ none
  | some worker ↦
      some (WorkerKey.qualified_worker_key worker.machine_id worker.repo_id worker.worker_id)
]

-- `parse_bool_value` of a text. No character outside ASCII is one of these words in lower case.
unfoldable pub parse_bool_value : String → Result Bool
unfolding lowers_to
parse_bool_value value =
    let normalized = strip value in
    if lowers_to normalized "1"
      || lowers_to normalized "true"
      || lowers_to normalized "yes"
      || lowers_to normalized "on"
    then ok true
    else if lowers_to normalized "0"
        || lowers_to normalized "false"
        || lowers_to normalized "no"
        || lowers_to normalized "off"
    then ok false
    else err value_error
