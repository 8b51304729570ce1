-- ===== src/Issues/Server/Next.antt =====
-- testing/issues.py: `claim_next`, which claims the first of the ready issues by priority and id.
pub mod Sort
use issuekit.Prelude.{
  ℕ, String, ◌≡◌, refl, Bool, true, false, not, ◌&&◌, ◌||◌, Option, none, some, List, [], ◌∷◌, ◌++◌,
  if◌then◌else◌, ◌==◌, leb, ltb, eqb, Result, ok, err, ◌>>=◌, map, select, arith, All, ◌⊎◌, inl,
  inr, In, Bool-cases,
}
use issuekit.Issues.Row.{
  Issue, is_claimable_status, is_ready_stage, is_open_to, rank, is_blocked_state,
  matches_target_worker,
}
use issuekit.Issues.Server.{Value, FakeIssueSurface, drop_none, log, save}
use issuekit.Issues.Server.Work.{Claimant, claim_issue, with_flag}

-- `priority is None or issue.get("priority") == priority`, for any such key
abbrev pub is_wanted : Option String → String → Bool
is_wanted none actual = true
is_wanted (some wanted) actual = actual == wanted

unfoldable pub is_candidate : Claimant → Option String → Issue → Bool
is_candidate c priority issue =
    is_claimable_status issue.status
    && is_ready_stage issue.stage
    && is_open_to issue.assignee c.assignee
    && is_wanted priority issue.priority
    && matches_target_worker issue c.worker
    && not (is_blocked_state issue.dependency_state)

abbrev pub values : List (ℕ × Issue) → List Issue
values [] = []
values ((k, issue) ∷ issues) = issue ∷ values issues

unfoldable pub candidates : Claimant → Option String → List (ℕ × Issue) → List Issue
candidates c priority issues = select (is_candidate c priority) (values issues)

-- The key `(rank, id)` of `sorted`, compared as a tuple.
unfoldable pub is_before : Issue → Issue → Bool
is_before a b =
    ltb (rank a.priority) (rank b.priority)
    || eqb (rank a.priority) (rank b.priority) && leb a.id b.id

-- `sorted` keeps equal keys in order: an element goes before the first that it does not follow.
unfoldable pub insert : (Issue → Issue → Bool) → Issue → List Issue → List Issue
insert before x [] = x ∷ []
insert before x (y ∷ ys) =
    let rest = insert before x ys in if before x y then x ∷ y ∷ ys else y ∷ rest

unfoldable pub sorted : (Issue → Issue → Bool) → List Issue → List Issue
sorted before [] = []
sorted before (x ∷ xs) = insert before x (sorted before xs)

-- Claim the row and write it at its id; `none` stands for "no candidate".
unfoldable pub claim_first :
    Claimant → List Issue → FakeIssueSurface → Result (Option Issue) × FakeIssueSurface
claim_first c [] s = (ok none, s)
claim_first c (issue ∷ others) s =
    let (result, s') = save issue.id (claim_issue c issue) s in (result >>= λ i. ok (some i), s')

unfoldable pub claim_next :
    Claimant → Option String → FakeIssueSurface → Result (Option Issue) × FakeIssueSurface
claim_next c priority s =
    let body = with_flag "allow_self_implement" c.allow_self_implement (
      drop_none (
        ("assignee", some c.assignee)
        ∷ ("priority", priority)
        ∷ ("worker", c.worker)
        ∷ ("session", c.session)
        ∷ [])) in
    claim_first c (sorted is_before (candidates c priority s.issues)) (log "claim_next" none body s)
