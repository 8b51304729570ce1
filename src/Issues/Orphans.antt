-- ===== src/Issues/Orphans.antt =====
-- issues/orphans.py, with timestamps.py: claims whose worker is gone or silent. Times are seconds;
-- `datetime.fromisoformat` (in UTC) is a parameter, and `now` is an argument as in the source.
pub mod Live
use Prim.Native.Char.{Char, code}
use Prim.Native.String.{[], ◌∷◌}
use mathlib.Core.List.{List}
use mathlib.Core.List
use issuekit.Prelude.{
  ℕ, ◌+◌, ◌-◌, String, Bool, true, false, not, ◌&&◌, ◌||◌, Option, none, some, if◌then◌else◌, ◌==◌,
  is_empty, leb, ltb, eqb, select, ◌++◌, map,
}
use issuekit.Prelude.Text.{strip}
use issuekit.Core.WorkerKey.{WorkerRow, worker_key_matches_row}

-- core.py: what the detection and its output read of an issue
pub record Issue : Type 0 where
  pub id : Option ℕ
  pub ref : String
  pub title : String
  pub assignee : String
  pub stage : String
  pub worker : String
  pub target_worker : String

pub record StaleClaim : Type 0 where
  pub issue : Issue
  pub reason : String
  pub worker : String
  pub last_seen : Option String
  pub stale_seconds : Option ℕ
  pub target_worker : String

-- A final `Z` is written as an offset.
zulu : String → String
zulu [] = []
zulu (c ∷ []) = if eqb (code c) 90 then "+00:00" else c ∷ []
zulu (c ∷ d ∷ text) = c ∷ zulu (d ∷ text)

-- What a run of the detection is given besides its issues.
pub record Clock : Type 0 where
  pub fromisoformat : String → Option ℕ
  pub now : ℕ
  pub stale_after_sec : ℕ

unfoldable pub parse_timestamp : (String → Option ℕ) → Option String → Option ℕ
unfolding zulu
parse_timestamp fromisoformat none = none
parse_timestamp fromisoformat (some value) =
    if is_empty (strip value) then none else fromisoformat (zulu (strip value))

-- The age of a row's heartbeat, if it is too old; `none` if the row counts as live.
unfoldable pub stale_age : Clock → WorkerRow → Option ℕ
stale_age clock row = elim (parse_timestamp clock.fromisoformat row.last_seen) [
  | none ↦ none
  | some seen ↦
      if leb (clock.now - seen) clock.stale_after_sec then none else some (clock.now - seen)
]

abbrev pub add_age :
    Option String → Option ℕ → Option (List (Option String × ℕ)) → Option (List (Option String × ℕ))
add_age seen (some age) (some ages) = some (List.◌∷◌ (seen, age) ages)
add_age seen _ _ = none

-- The loop over the matching rows, which returns at the first that is live.
unfoldable pub stale_matches : Clock → List WorkerRow → Option (List (Option String × ℕ))
stale_matches clock List.[] = some List.[]
stale_matches clock (List.◌∷◌ row rows) =
    add_age row.last_seen (stale_age clock row) (stale_matches clock rows)

-- `min(stale_matches, key=age)`: the first of the youngest
unfoldable pub youngest : Option String × ℕ → List (Option String × ℕ) → Option String × ℕ
youngest best List.[] = best
youngest best (List.◌∷◌ other others) =
    if ltb other.1 best.1 then youngest other others else youngest best others

-- What is looked for: the holder of a claim, or the target of a directed issue.
pub record Wanted : Type 0 where
  pub issue : Issue
  pub worker : String
  pub no_worker_reason : String
  pub expired_reason : String
  pub target_worker : String

abbrev claim_of : Wanted → String → Option String → Option ℕ → StaleClaim
claim_of wanted reason last_seen stale_seconds = record {
  issue = wanted.issue;
  reason = reason;
  worker = wanted.worker;
  last_seen = last_seen;
  stale_seconds = stale_seconds;
  target_worker = wanted.target_worker;
}

unfoldable pub matches_of : Wanted → List WorkerRow → List WorkerRow
matches_of wanted rows =
    select (worker_key_matches_row (not (is_empty wanted.target_worker)) wanted.worker) rows

unfoldable pub expired : Wanted → Option (List (Option String × ℕ)) → List StaleClaim
expired wanted none = List.[]
expired wanted (some List.[]) = List.[]
expired wanted (some (List.◌∷◌ first others)) =
    let (seen, age) = youngest first others in
    List.◌∷◌ (claim_of wanted wanted.expired_reason seen (some age)) List.[]

unfoldable pub found_rows : Clock → Wanted → List WorkerRow → List StaleClaim
found_rows clock wanted List.[] =
    List.◌∷◌ (claim_of wanted wanted.no_worker_reason none none) List.[]
found_rows clock wanted (List.◌∷◌ row rows) =
    expired wanted (stale_matches clock (List.◌∷◌ row rows))

-- `_append_stale_worker`: what it appends.
unfoldable pub append_stale_worker : Clock → List WorkerRow → Wanted → List StaleClaim
append_stale_worker clock rows wanted = found_rows clock wanted (matches_of wanted rows)

is_ready_directed_stage : String → Bool
is_ready_directed_stage stage = stage == "" || stage == "todo" || stage == "changes_requested"

abbrev held : Issue → Wanted
held issue = record {
  issue = issue;
  worker = issue.worker;
  no_worker_reason = "no_worker";
  expired_reason = "expired_heartbeat";
  target_worker = "";
}

abbrev directed : Issue → Wanted
directed issue = record {
  issue = issue;
  worker = issue.target_worker;
  no_worker_reason = "directed_no_worker";
  expired_reason = "directed_expired_heartbeat";
  target_worker = issue.target_worker;
}

-- The body of the loop over the issues: what it looks for.
unfoldable pub wanted_of : Issue → Option Wanted
unfolding is_ready_directed_stage
wanted_of issue =
    if not (issue.stage == "implementing")
    then if is_ready_directed_stage issue.stage && not (is_empty issue.target_worker)
      then some (directed issue)
      else none
    else if not (is_empty issue.worker)
    then some (held issue)
    else none

abbrev pub check_issue : Clock → List WorkerRow → Option Wanted → List StaleClaim
check_issue clock rows none = List.[]
check_issue clock rows (some wanted) = append_stale_worker clock rows wanted

unfoldable pub detect_stale_claims : Clock → List WorkerRow → List Issue → List StaleClaim
detect_stale_claims clock rows List.[] = List.[]
detect_stale_claims clock rows (List.◌∷◌ issue issues) =
    check_issue clock rows (wanted_of issue) ++ detect_stale_claims clock rows issues
