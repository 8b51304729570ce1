-- ===== src/Issues/Orphans/Live.antt =====
-- When a claim is reported.
use issuekit.Prelude.{
  ◌≡◌, refl, Bool, not, List, [], ◌∷◌, if◌then◌else◌, arith, any, is_some, length,
}
use issuekit.Core.WorkerKey.{WorkerRow}
use issuekit.Issues.Orphans.{
  Clock, Wanted, stale_age, stale_matches, matches_of, expired, found_rows, append_stale_worker,
}

-- A row is live if its heartbeat is young, or cannot be read.
unfoldable pub is_live : Clock → WorkerRow → Bool
is_live clock row = not (is_some (stale_age clock row))

stale_matches-is_live :
    (clock : Clock) (rows : List WorkerRow)
    → is_some (stale_matches clock rows) ≡ not (any (is_live clock) rows)
unfolding stale_matches is_live
stale_matches-is_live clock [] = refl
stale_matches-is_live clock (row ∷ rows) = ground (arith, stale_matches-is_live clock rows)

found_rows-is_live :
    (clock : Clock) (wanted : Wanted) (rows : List WorkerRow)
    → length (found_rows clock wanted rows) ≡ (if any (is_live clock) rows then 0 else 1)
unfolding found_rows stale_matches is_live expired
found_rows-is_live clock wanted [] = refl
found_rows-is_live clock wanted (row ∷ rows) = ground (arith, stale_matches-is_live clock rows)

-- A wanted worker is reported, once, just when none of the rows that match its key is live.
pub append_stale_worker-is_live :
    (clock : Clock) (rows : List WorkerRow) (wanted : Wanted)
    → length (append_stale_worker clock rows wanted)
      ≡ (if any (is_live clock) (matches_of wanted rows) then 0 else 1)
unfolding append_stale_worker
append_stale_worker-is_live clock rows wanted =
    found_rows-is_live clock wanted (matches_of wanted rows)
