-- ===== src/Lib.antt =====
-- A model of issuekit, the client of an issue server that hands work from agent to agent, with the
-- theorems on it. Paths are those of the repository.
--
-- The parts. Agents and humans work on issues of a server. A worker is a checkout, named by a key
-- `worker.repo@machine` (issuekit/core.py). Two repositories settle an interface by a negotiation: a
-- thread of entries in a store (issuekit/negotiation/mock_store.py), to which the engine adds a round
-- of each side in turn until the thread converges (issuekit/negotiation/engine.py, rounds.py,
-- thread.py). Issues go through a lifecycle on the server, whose in-memory form is
-- issuekit/testing/issues.py. The serve command polls for work (issuekit/commands/serve/loop.py), and
-- issuekit/issues/orphans.py finds claims whose worker is gone.
--
-- The files:
-- - Prelude: tests, lists, results, texts and dicts. An exception is a value of `Error`; messages are
--   not modelled, the codes are. `Dict` is a Python dict in insertion order.
-- - Core/Token, Core/WorkerKey, Core/Address: the tokens, keys and target addresses of core.py, with
--   the same names; laws in the child `Laws` of each.
-- - Negotiation/Model, Negotiation/Thread: model.py and thread.py. SHA-256 is the parameter `sha256`,
--   of which nothing is assumed. Thread/Agreements and Thread/Freeze: which contract is frozen.
-- - Negotiation/Store: the methods of `MockNegotiationStore` as functions from a store to a result and
--   a store, the file with it. Store/Order sorts threads, Store/Ops makes the calls a type,
--   Store/Checks inverts calls that succeed, Store/Invariant and Store/Frozen are on series of calls.
-- - Negotiation/Engine: `_run_rounds` and what it calls. An agent is a parameter that may fail, time
--   out or answer anything. Engine/Round, Engine/Loop, Engine/Agreement are its theorems.
-- - Negotiation/Prompts: the bodies of the two issues that an agreed negotiation opens, from
--   issuekit/negotiation/prompts.py. Negotiation/Finalize: finalize.py, over whatever creates issues;
--   Finalize/Creator is the creator in memory, Finalize/Final and Finalize/Linked are theorems.
-- - Issues/Row, Issues/Server and its children: rows as records, operations as a check of a row that
--   gives the new row, the call log with them; Work (plan, claim, reclaim), Review (dispatch to
--   complete), Next (`claim_next`), Rows, Effects and Invariant (what an operation may change).
--   Issues/Claim and Issues/Listing: theorems on claims, approval and pages.
-- - Issues/Orphans: stale claims; `datetime.fromisoformat` is a parameter, time is in seconds.
-- - Serve/Loop: the polling loop. The world of polls, callbacks, sleeps and signals is a parameter.
-- - Config: issuekit/config/model.py, the fields that the modelled code reads.
-- - Guards: issuekit/guards/. Guards/Author keeps the author guards in the local file of a checkout,
--   which is modelled by its tables; Author/Record and Author/Blocks are its theorems. Guards/Branch.
--   Guards/ClaimSync: git is a parameter that answers each command, with a log of those that were run.
-- - Agents: what is accepted of an agent's answer. Agents/Json has the values of JSON, Agents/Router
--   issuekit/agents/router.py, Agents/Review issuekit/agents/review_output.py with the cleaning of texts to
--   ASCII, in which `unicodedata.normalize` is a parameter. Router/Routed and Review/Verdict are theorems.
-- - Workflow: issuekit/workflow.py, the choice of reviewers and implementers and, in its children
--   Transitions, Claim, Recover and Review, the transitions of an issue behind their guards. The store
--   is an interface, a record of operations over a state of its own, and stays a parameter. Their
--   children Guarded, Flagged, Next and Ids are theorems.
-- - Requests: issuekit/commands/request/, what a project manager's checkout asks of other projects.
--   Requests/State is the file of requests, Requests/Build the proposal of a target (issuekit/proposals/build.py),
--   over the regular expressions on its body as a parameter, Requests/Routing the saving and sending of
--   targets over an interface to the API of proposals, Requests/Decide what a decision of the router does, Requests/Answer the
--   links and answers. Found, Clarify, Answered, Prepared, Delivers and the children of Routing are theorems.
-- - Encoding: issuekit/encoding/. Encoding/Lines has the offsets of line breaks and their binary search,
--   Encoding/Paths the excluded paths, over `fnmatch.fnmatchcase` as a parameter, Encoding/Window the windows
--   and hits, over the codecs as a parameter, Encoding/Added the lines that a diff adds, Encoding/Scan
--   the scan of files, over what they hold as a parameter. The others are theorems.
-- - Tests, in each part: concrete inputs.
--
-- Fuel: the loop of rounds takes one unit a round, and `max_rounds` and one are enough as each round
-- adds an entry; the loop of pages takes the number of rows and one, as each full page holds one row at
-- least; the sending of targets takes a unit a round, and the number of targets is enough as each round
-- sends one or fails; the loop over line breaks takes one for each character, the binary search one for each
-- offset, and the end of a window one for each character; the polling loop runs as long as its world lets it.
--
-- Numbers are natural. Times are whole seconds or milliseconds, where the program has floats. Locks are not modelled: an
-- operation is one step. Not modelled: the HTTP client, the MCP server, command lines, the prompts of
-- agents, processes, files other than the one of the negotiation store and the local file (what they
-- hold, not their JSON or TOML), the merging of configuration files, proposals beyond the building of one and an interface to the API,
-- the inbox of the requests, and the separators other than line breaks at which `str.splitlines` cuts a diff.
pub mod Prelude
pub mod Core
pub mod Config
pub mod Agents
pub mod Requests
pub mod Encoding
pub mod Guards
pub mod Negotiation
pub mod Issues
pub mod Serve
pub mod Workflow
