-- ===== src/Issues/Server/Rows.antt =====
-- The dict of rows: keys stand in it once, and a row has its key as its id.
use issuekit.Prelude.{
  ℕ, ◌≡◌, refl, none, some, List, [], ◌∷◌, if◌then◌else◌, eqb, arith, In, Result, ok, err, Error,
  inl, inr, here, there, Option-cases, Result-cases,
}
use issuekit.Issues.Row.{Issue}
use issuekit.Issues.Server.{FakeIssueSurface, lookup, store, find, on_issue}
use issuekit.Issues.Server.Next.{values}

pub lookup-store :
    (n m : ℕ) (issue : Issue) (rows : List (ℕ × Issue))
    → lookup m (store n issue rows) ≡ (if eqb n m then some issue else lookup m rows)
unfolding lookup store
lookup-store n m issue [] = refl
lookup-store n m issue ((k, old) ∷ rows) = ground (arith, lookup-store n m issue rows)

abbrev pub IsKeyed : List (ℕ × Issue) → Type 0
IsKeyed [] = Unit
IsKeyed ((k, issue) ∷ rows) = (issue.id ≡ k) × (lookup k rows ≡ none) × IsKeyed rows

pub store-IsKeyed :
    (n : ℕ) (issue : Issue) (rows : List (ℕ × Issue))
    → issue.id ≡ n
    → IsKeyed rows
    → IsKeyed (store n issue rows)
unfolding store lookup
store-IsKeyed n issue [] same h = (same, refl, tt)
store-IsKeyed n issue ((k, old) ∷ rows) same (named, fresh, h) =
    ground (arith, lookup-store n k issue rows, store-IsKeyed n issue rows same h)

pub lookup-id :
    (n : ℕ) (rows : List (ℕ × Issue)) {issue : Issue}
    → IsKeyed rows
    → lookup n rows ≡ some issue
    → issue.id ≡ n
unfolding lookup
lookup-id n [] h found = cc
lookup-id n ((k, old) ∷ rows) {issue} (named, fresh, h) found =
    ground (arith, lookup-id n rows {issue = issue} h)

pub lookup-values :
    (rows : List (ℕ × Issue)) (issue : Issue)
    → IsKeyed rows
    → In issue (values rows)
    → lookup issue.id rows ≡ some issue
unfolding lookup
lookup-values [] issue h i = elim i [ ]
lookup-values ((k, old) ∷ rows) issue (named, fresh, h) here = ground arith
lookup-values ((k, old) ∷ rows) issue (named, fresh, h) (there i) =
    ground (arith, lookup-values rows issue h i)

-- What `on_issue` comes to: it fails and leaves the server as it is, or it writes one row.
pub data OnIssue (n : ℕ) (change : Issue → Result Issue) (s : FakeIssueSurface)
    : Result Issue × FakeIssueSurface → Type 0 where
  failed : (e : Error) → OnIssue n change s (err e, s)
  wrote :
      (old new : Issue)
      → lookup n s.issues ≡ some old
      → change old ≡ ok new
      → OnIssue n change s (ok new, record s { issues = store n new s.issues })

pub on_issue-OnIssue :
    (n : ℕ) (change : Issue → Result Issue) (s : FakeIssueSurface)
    → OnIssue n change s (on_issue n change s)
unfolding on_issue find
on_issue-OnIssue n change s = elim (Option-cases (lookup n s.issues)) [
  | inl missing ↦ rw (missing, find) (failed _)
  | inr (old, found) ↦ elim (Result-cases (change old)) [
    | inl (new, made) ↦ rw (found, find, made) (wrote old new found made)
    | inr (e, refused) ↦ rw (found, find, refused) (failed e)
  ]
]
