-- ===== src/Issues/Listing.antt =====
-- testing/issues.py: listing issues, one page at a time.
pub mod Pages
use Prim.Native.Nat.{min}
use issuekit.Prelude.{
  ℕ, zero, suc, ◌+◌, String, Bool, true, false, not, ◌&&◌, ◌||◌, Option, none, some, List, [], ◌∷◌,
  ◌++◌, if◌then◌else◌, ◌==◌, leb, ltb, Result, ok, err, value_error, select, take, drop, length,
}
use issuekit.Issues.Row.{Issue}
use issuekit.Issues.Server.{FakeIssueSurface}
use issuekit.Issues.Server.Next.{is_wanted, values, sorted}

pub record Query : Type 0 where
  pub status : Option String
  pub stage : Option String
  pub assignee : Option String
  pub include_completed : Bool

is_listed_status : Option String → Bool → String → Bool
is_listed_status none include_completed actual = include_completed || not (actual == "completed")
is_listed_status (some status) include_completed actual = actual == status

pub is_listed : Query → Issue → Bool
unfolding is_listed_status
is_listed q issue =
    is_listed_status q.status q.include_completed issue.status
    && is_wanted q.stage issue.stage
    && is_wanted q.assignee issue.assignee

abbrev pub by_id : Issue → Issue → Bool
by_id a b = leb a.id b.id

abbrev pub or_number : ℕ → Option ℕ → ℕ
or_number d none = d
or_number d (some n) = n

-- Every issue that the query asks for, by id.
pub matching : Query → FakeIssueSurface → List Issue
matching q s = select (is_listed q) (sorted by_id (values s.issues))

-- `issues[start:stop]`, for the limit and the offset of a page
unfoldable pub list_issues : Query → Option ℕ → Option ℕ → FakeIssueSurface → List Issue
list_issues q limit offset s = take (or_number 100 limit) (drop (or_number 0 offset) (matching q s))

-- The `while True` loop of `list_all_issues`, with fuel for its pages.
unfoldable pub pages : Query → ℕ → FakeIssueSurface → ℕ → ℕ → List Issue → Option (List Issue)
pages q page_size s zero offset issues = none
pages q page_size s (suc fuel) offset issues =
    let batch = list_issues q (some page_size) (some offset) s in
    let rest = pages q page_size s fuel (offset + page_size) (issues ++ batch) in
    if ltb (length batch) page_size then some (issues ++ batch) else rest

-- A full page leaves fewer rows behind it, so the number of rows and one are fuel enough.
unfoldable pub list_all_issues : Query → ℕ → FakeIssueSurface → Option (Result (List Issue))
list_all_issues q page_size s =
    let found = pages q (min page_size 500) s (suc (length (matching q s))) 0 [] in
    if leb page_size 0
    then some (err value_error)
    else elim found [ none ↦ none | some issues ↦ some (ok issues) ]

unfoldable pub count_issues : Query → FakeIssueSurface → Option (Result ℕ)
count_issues q s = elim (list_all_issues q 500 s) [
  | none ↦ none
  | some (err e) ↦ some (err e)
  | some (ok issues) ↦ some (ok (length issues))
]
