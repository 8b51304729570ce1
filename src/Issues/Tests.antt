-- ===== src/Issues/Tests.antt =====
-- A server with three issues, and concrete inputs of the theorems on issues.
use issuekit.Prelude.{
  ℕ, String, ◌≡◌, refl, true, false, none, some, List, [], ◌∷◌, ok, err, workflow, ◌≢◌, arith,
  eq_iff, ◌⊎◌,
}
use issuekit.Core.WorkerKey.{WorkerRow}
use issuekit.Issues.Row.{Issue, Fields}
use issuekit.Issues.Row
use issuekit.Issues.Server.{FakeIssueSurface, lookup}
use issuekit.Issues.Server
use issuekit.Issues.Server.Work.{Claimant, claim, claim_issue, claimed}
use issuekit.Issues.Server.Work
use issuekit.Issues.Server.Review.{Approval, approve}
use issuekit.Issues.Server.Review
use issuekit.Issues.Server.Next.{claim_next, candidates}
use issuekit.Issues.Server.Next
use issuekit.Issues.Server.Op.{Op, run_op, run_ops}
use issuekit.Issues.Server.Invariant.{IsServer, run_ops-IsServer, run_op-raised, run_op-frame}
use issuekit.Issues.Listing.{Query, matching, list_all_issues}
use issuekit.Issues.Listing.Pages.{list_all_issues-matching}
use issuekit.Issues.Claim.{claim-exclusive, approve-ok, IsOther, claim_issue-author}
use issuekit.Issues.Claim.Next.{IsBest, claim_next-IsBest}
use issuekit.Issues.Orphans.{Clock, Wanted}

abbrev issue : ℕ → String → String → String → String → Issue
issue id priority stage author implementer = record {
  id = id;
  title = "t";
  status = "active";
  priority = priority;
  created = "2026-01-01";
  completed = "";
  assignee = "";
  stage = stage;
  implementer = implementer;
  author = author;
  worker = "";
  target_worker = "";
  author_session = "";
  implementer_session = "";
  reviewer_session = "";
  body = "";
  branch = none;
  commit = none;
  dependency_state = none;
}

abbrev rows : List (ℕ × Issue)
rows =
    (1, issue 1 "low" "todo" "ann" "")
    ∷ (2, issue 2 "high" "todo" "ann" "")
    ∷ (3, issue 3 "medium" "review" "ann" "codex")
    ∷ []

abbrev server : FakeIssueSurface
server = record { issues = rows; next_id = 4; calls = []; stored_target_worker_override = none }

server-IsServer : IsServer server
unfolding lookup
server-IsServer = record {
  keyed = (refl, refl, (refl, refl, (refl, refl, tt)));
  below = λ n i found. ground arith;
}

abbrev codex : Claimant
codex = record { assignee = "codex"; worker = none; allow_self_implement = false; session = none }

abbrev ann : Claimant
ann = record { assignee = "ann"; worker = none; allow_self_implement = false; session = none }

claim-codex : (claim 2 codex server).0 ≡ ok (claimed codex (issue 2 "high" "todo" "ann" ""))
unfolding claim Server.on_issue Server.find lookup claim_issue Work.claim_checks
    Row.is_claimable_status Row.is_ready_stage Row.is_open_to Row.matches_target_worker
    Row.is_forbidden_self_implement
claim-codex = refl

names_differ : ◌≢◌ {A = String} "codex" "ann"
names_differ = λ p. ground (arith, eq_iff "codex" "ann")

claim-exclusive_example :
    (claim 2 ann (claim 2 codex server).1).0 ≡ err (workflow "invalid_transition")
claim-exclusive_example = claim-exclusive 2 codex ann server claim-codex refl names_differ

claim_next-codex :
    (claim_next codex none server).0 ≡ ok (some (claimed codex (issue 2 "high" "todo" "ann" "")))
unfolding claim_next Next.claim_first candidates Next.is_candidate Next.sorted Next.insert
    Next.is_before Row.rank Row.is_blocked_state lookup claim_issue Work.claim_checks
    Row.is_claimable_status Row.is_ready_stage Row.is_open_to Row.matches_target_worker
    Row.is_forbidden_self_implement
claim_next-codex = refl

claim_next-IsBest_example :
    (i : Issue) × IsBest codex none server
      (claim_next codex none server).1
      (claimed codex (issue 2 "high" "todo" "ann" ""))
      i
claim_next-IsBest_example = claim_next-IsBest codex none server claim_next-codex

claim_next-unwanted : (claim_next codex (some "urgent") server).0 ≡ ok none
unfolding claim_next Next.claim_first candidates Next.is_candidate Next.sorted
    Row.is_claimable_status Row.is_ready_stage Row.is_open_to Row.matches_target_worker
    Row.is_blocked_state
claim_next-unwanted = refl

abbrev own : FakeIssueSurface
own = record server {
  issues = (1, record (issue 1 "high" "todo" "ann" "") { assignee = "ann" }) ∷ [];
}

claim_next-ann : (claim_next ann none own).0 ≡ err (workflow "forbidden_self_implement")
unfolding claim_next Next.claim_first candidates Next.is_candidate Next.sorted Next.insert
    Next.is_before Row.rank Row.is_blocked_state claim_issue Work.claim_checks
    Row.is_claimable_status Row.is_ready_stage Row.is_open_to Row.matches_target_worker
    Row.is_forbidden_self_implement
claim_next-ann = refl

abbrev same_id : Fields
same_id = record {
  id = some 2;
  title = some "u";
  status = none;
  priority = none;
  created = none;
  completed = none;
  assignee = none;
  stage = none;
  implementer = none;
  author = none;
  worker = none;
  target_worker = none;
  author_session = none;
  implementer_session = none;
  reviewer_session = none;
  body = none;
  branch = none;
  commit = none;
  dependency_state = none;
  session = none;
}

abbrev ops : List Op
ops = Op.claim 2 codex ∷ Op.update 2 same_id ∷ Op.reclaim 2 none none none ∷ []

run_ops-IsServer_example : IsServer (run_ops ops server)
run_ops-IsServer_example = run_ops-IsServer ops server (tt, (refl, (tt, tt))) server-IsServer

missing-raised : (run_op (Op.claim 9 codex) server).0 ≡ true
unfolding run_op claim Server.on_issue Server.find lookup
missing-raised = refl

run_op-raised_example :
    ((run_op (Op.claim 9 codex) server).1.issues ≡ rows)
    × ((run_op (Op.claim 9 codex) server).1.next_id ≡ 4)
run_op-raised_example = run_op-raised (Op.claim 9 codex) server server-IsServer.keyed missing-raised

run_op-frame_example :
    (lookup 1 (run_op (Op.claim 2 codex) server).1.issues ≡ lookup 1 rows)
    ⊎ (lookup 2 (run_op (Op.claim 2 codex) server).1.issues ≡ lookup 2 rows)
run_op-frame_example =
    run_op-frame (Op.claim 2 codex) server 1 2 server-IsServer.keyed (λ p. ground (arith, p))

abbrev active : Query
active = record { status = none; stage = none; assignee = none; include_completed = false }

list_all_issues-matching_example :
    list_all_issues active 2 server ≡ some (ok (matching active server))
list_all_issues-matching_example = list_all_issues-matching active 2 server (omega arith)

abbrev approval : Approval
approval = record {
  summary = "fine";
  verification = "tests";
  reviewer = "ann";
  worker = none;
  session = none;
  agent_model = none;
  agent_reasoning_effort = none;
}

abbrev done : Issue
done = record (issue 3 "medium" "done" "ann" "codex") { status = "completed" }

approve-ann : (approve 3 approval server).0 ≡ ok done
unfolding approve Server.on_issue Server.find lookup Review.approved Row.is_self_review
approve-ann = refl

approve-ok_example :
    (old : Issue) × (lookup 3 rows ≡ some old)
    × (old.stage ≡ "review")
    × (done.status ≡ "completed")
    × (done.stage ≡ "done")
    × IsOther approval old
approve-ok_example = approve-ok 3 approval server approve-ann

claimable : Row.is_claimable_status "active" ≡ true
unfolding Row.is_claimable_status
claimable = refl

ready : Row.is_ready_stage "todo" ≡ true
unfolding Row.is_ready_stage
ready = refl

untargeted : Row.matches_target_worker (issue 1 "low" "todo" "ann" "") none ≡ true
unfolding Row.matches_target_worker
untargeted = refl

claim_issue-author_example :
    claim_issue ann (issue 1 "low" "todo" "ann" "")
    ≡ ok (claimed ann (issue 1 "low" "todo" "ann" ""))
claim_issue-author_example =
    claim_issue-author ann (issue 1 "low" "todo" "ann" "") refl refl refl refl claimable ready
      untargeted

abbrev clock : Clock
clock = record { fromisoformat = λ text. some 100; now = 1000; stale_after_sec = 300 }

abbrev worker_row : WorkerRow
worker_row = record {
  machine_id = some "laptop";
  repo_id = some "issuekit";
  worker_name = some "codex";
  last_seen = some "2026-01-01T00:01:40Z";
}

abbrev wanted : Wanted
wanted = record {
  issue = record {
    id = some 1;
    ref = "";
    title = "t";
    assignee = "codex";
    stage = "implementing";
    worker = "codex.issuekit";
    target_worker = "";
  };
  worker = "codex.issuekit";
  no_worker_reason = "no_worker";
  expired_reason = "expired_heartbeat";
  target_worker = "";
}
