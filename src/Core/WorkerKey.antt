-- ===== src/Core/WorkerKey.antt =====
-- core.py: worker keys, `worker.repo` and `worker.repo@machine`, and when two of them name the
-- same worker.
pub mod Laws
use Prim.Native.String.{◌++◌}
use issuekit.Prelude.{
  String, ◌≡◌, Bool, true, false, not, ◌&&◌, ◌||◌, Option, none, some, List, [], ◌∷◌, if◌then◌else◌,
  ◌==◌, is_empty, is_some, any, select,
}
use issuekit.Prelude.Text.{strip, cut, rcut, has_char}

-- A registered worker, with the entries of its row that the client reads.
pub record WorkerRow : Type 0 where
  pub machine_id : Option String
  pub repo_id : Option String
  pub worker_name : Option String
  pub last_seen : Option String

pub record WorkerKeyParts : Type 0 where
  pub worker_name : String
  pub repo_id : Option String
  pub machine_id : Option String

-- `s or None`
abbrev pub or_none : String → Option String
or_none s = if is_empty s then none else some s

-- coerce.py
unfoldable pub strip_or_empty : Option String → String
strip_or_empty none = ""
strip_or_empty (some s) = strip s

unfoldable pub worker_key : String → String → String
worker_key repo_id worker_name = worker_name ++ ("." ++ repo_id)

unfoldable pub qualified_worker_key : String → String → String → String
qualified_worker_key machine_id repo_id worker_name =
    worker_name ++ ("." ++ (repo_id ++ ("@" ++ machine_id)))

-- The part of `_worker_key_parts` after the machine has been split off.
unsuffixed_parts : String → String → Option WorkerKeyParts
unsuffixed_parts left machine_id = elim (rcut b'.' left) [
  | some (worker_name, repo_id) ↦
      if is_empty worker_name || is_empty repo_id
      then none
      else some (record {
        worker_name = worker_name;
        repo_id = some repo_id;
        machine_id = or_none machine_id;
      })
  | none ↦
      if is_empty machine_id
      then none
      else some (record { worker_name = left; repo_id = none; machine_id = some machine_id })
]

pub worker_key_parts : String → Option WorkerKeyParts
unfolding unsuffixed_parts
worker_key_parts value =
    let text = strip value in
    if is_empty text then none else elim (rcut b'@' text) [
      | none ↦ unsuffixed_parts text ""
      | some (left, machine_id) ↦
          if is_empty left || is_empty machine_id then none else unsuffixed_parts left machine_id
    ]

-- `a and b and a != b`
abbrev pub both_differ : Option String → Option String → Bool
both_differ (some a) (some b) = not (is_empty a) && not (is_empty b) && not (a == b)
both_differ _ _ = false

abbrev pub is_set : Option String → Bool
is_set none = false
is_set (some a) = not (is_empty a)

unfoldable pub worker_key_parts_match : Bool → WorkerKeyParts → WorkerKeyParts → Bool
worker_key_parts_match require_target_machine target other =
    if not (target.worker_name == other.worker_name)
    then false
    else if both_differ target.repo_id other.repo_id
    then false
    else if both_differ target.machine_id other.machine_id
    then false
    else not (require_target_machine && is_set target.machine_id && not (is_set other.machine_id))

abbrev match_found : Bool → Option WorkerKeyParts → Option WorkerKeyParts → Bool
match_found require (some left) (some right) = worker_key_parts_match require left right
match_found require _ _ = false

pub worker_keys_match : Bool → String → String → Bool
worker_keys_match require_target_machine left right =
    left == right
    || match_found require_target_machine (worker_key_parts left) (worker_key_parts right)

pub worker_keys_from_row : WorkerRow → List String
unfolding worker_key qualified_worker_key strip_or_empty
worker_keys_from_row row =
    let machine_id = strip_or_empty row.machine_id in
    let repo_id = strip_or_empty row.repo_id in
    let worker_name = strip_or_empty row.worker_name in
    if is_empty repo_id || is_empty worker_name
    then []
    else worker_key repo_id worker_name
      ∷ (if is_empty machine_id
          then []
          else qualified_worker_key machine_id repo_id worker_name ∷ [])

-- `A if A else B` on lists
abbrev or_else : List String → List String → List String
or_else [] keys = keys
or_else (key ∷ others) keys = key ∷ others

pub worker_key_matches_row : Bool → String → WorkerRow → Bool
worker_key_matches_row directed_target key row =
    let row_keys = worker_keys_from_row row in
    let compared =
      if has_char b'@' key then or_else (select (has_char b'@') row_keys) row_keys else row_keys in
    any (worker_keys_match directed_target key) compared
