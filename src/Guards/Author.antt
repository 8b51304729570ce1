-- ===== src/Guards/Author.antt =====
-- guards/author.py and config/local.py: the guards that author sessions leave in the local file of
-- a checkout. The file is modelled by the tables it holds, whose values are texts, and it reads back
-- as it was written.
pub mod Record
pub mod Blocks
use Prim.Native.String
use issuekit.Prelude.{
  ℕ, String, Bool, true, false, not, ◌&&◌, ◌||◌, Option, none, some, List, [], ◌∷◌, ◌++◌,
  if◌then◌else◌, ◌==◌, is_empty, is_some, or_empty, eqb, length, select, any, Result, ok, err,
  Error, workflow, plain_workflow, local_config_error, guard, ◌>>=◌,
}
use issuekit.Prelude.Dict.{get}
use issuekit.Prelude.Decimal.{show}
use issuekit.Prelude.Text.{strip}
use issuekit.Core.WorkerKey.{strip_or_empty}
use issuekit.Config.{IssuekitConfig, worker_key, parse_bool_value, has}

abbrev pub Table : Type 0
Table = List (String × String)

pub record LocalConfig : Type 0 where
  pub worker : Option Table
  pub disabled_agents : Option (List String)
  pub refs : Table
  pub author_guards : List Table

-- The local file: none, one that `read_local_config` refuses, or its tables.
pub data LocalFile : Type 0 where
  absent unreadable : LocalFile
  present : LocalConfig → LocalFile

pub record AuthorGuard : Type 0 where
  pub project : String
  pub kind : String
  pub id : String
  pub ref : String
  pub target_project : String
  pub author_agent : String
  pub author_session : String
  pub worker : String
  pub created : String
  pub required_next_action : String

pub record AuthorOrchestrationContext : Type 0 where
  pub implementer_agent : String
  pub run_session : String

unfoldable pub read_local_config : LocalFile → Result LocalConfig
read_local_config LocalFile.absent =
    ok (record { worker = none; disabled_agents = none; refs = []; author_guards = [] })
read_local_config LocalFile.unreadable = err local_config_error
read_local_config (LocalFile.present config) = ok config

-- `{key: table[key] for key in keys if key in table}`
unfoldable pub keep_keys : List String → Table → Table
keep_keys [] table = []
keep_keys (key ∷ keys) table = elim (get key table) [
  | none ↦ keep_keys keys table
  | some value ↦ (key, value) ∷ keep_keys keys table
]

abbrev pub worker_keys : List String
worker_keys = "machine_id" ∷ "repo_id" ∷ "worker_name" ∷ []

abbrev pub author_guard_keys : List String
author_guard_keys =
    "project" ∷ "kind" ∷ "id" ∷ "ref" ∷ "target_project" ∷ "author_agent" ∷ "author_session"
    ∷ "worker" ∷ "created" ∷ "required_next_action" ∷ []

abbrev written_worker : Option Table → Option Table
written_worker none = none
written_worker (some []) = none
written_worker (some (entry ∷ table)) = some (keep_keys worker_keys (entry ∷ table))

unfoldable pub written_guards : List Table → List Table
unfolding keep_keys
written_guards [] = []
written_guards (table ∷ tables) = keep_keys author_guard_keys table ∷ written_guards tables

-- `write_local_config` of a file that was read, with other author guards
unfoldable pub write_author_guards : LocalConfig → List Table → LocalFile
unfolding keep_keys
write_author_guards config guards =
    LocalFile.present (record config {
      worker = written_worker config.worker;
      author_guards = written_guards guards;
    })

abbrev with_key : String → String → Table
with_key key value = if is_empty value then [] else (key, value) ∷ []

unfoldable pub to_dict : AuthorGuard → Table
to_dict g =
    ("project", g.project)
    ∷ ("kind", g.kind)
    ∷ ("id", g.id)
    ∷ ("ref", g.ref)
    ∷ ("author_agent", g.author_agent)
    ∷ ("author_session", g.author_session)
    ∷ ("created", g.created)
    ∷ ("required_next_action", g.required_next_action)
    ∷ (with_key "target_project" g.target_project ++ with_key "worker" g.worker)

-- `(str(existing.get("kind", "")), str(existing.get("ref", ""))) == key`
unfoldable pub has_guard_key : String → String → Table → Bool
has_guard_key kind ref table =
    or_empty (get "kind" table) == kind && or_empty (get "ref" table) == ref

-- The loop of `_with_author_guard`, after which an entry that replaced nothing is appended.
unfoldable pub replace_guard : String → String → Table → Bool → List Table → List Table
replace_guard kind ref entry replaced [] = if replaced then [] else entry ∷ []
replace_guard kind ref entry replaced (table ∷ tables) =
    if has_guard_key kind ref table
    then (if replaced
        then replace_guard kind ref entry true tables
        else entry ∷ replace_guard kind ref entry true tables)
    else table ∷ replace_guard kind ref entry replaced tables

unfoldable pub with_author_guard : List Table → AuthorGuard → List Table
with_author_guard tables g = replace_guard g.kind g.ref (to_dict g) false tables

-- What `create_author_guard` is called with.
pub record GuardedItem : Type 0 where
  pub kind : String
  pub item_id : Option ℕ
  pub ref : String
  pub author_agent : Option String
  pub author_session : Option String
  pub target_project : Option String

abbrev or_unknown : String → String
or_unknown s = if is_empty s then "unknown" else s

unfoldable pub new_guard : IssuekitConfig → String → GuardedItem → AuthorGuard
new_guard config now item = record {
  project = config.project;
  kind = item.kind;
  id = elim item.item_id [ none ↦ "" | some n ↦ show n ];
  ref = item.ref;
  target_project = or_empty item.target_project;
  author_agent = or_unknown (strip (or_unknown (or_empty item.author_agent)));
  author_session = strip (or_empty item.author_session);
  worker = or_empty (worker_key config);
  created = now;
  required_next_action = "STOP";
}

-- `now` is the time of the creation. A file that cannot be read is left alone.
unfoldable pub create_author_guard :
    IssuekitConfig → String → GuardedItem → LocalFile → Result AuthorGuard × LocalFile
create_author_guard config now item file = elim (read_local_config file) [
  | err e ↦ (err e, file)
  | ok local_config ↦
      let g = new_guard config now item in
      (ok g, write_author_guards local_config (with_author_guard local_config.author_guards g))
]

abbrev remaining : Option String → List Table → List Table
remaining none guards = []
remaining (some ref) guards = select (λ table. not (or_empty (get "ref" table) == ref)) guards

unfoldable pub clear_author_guard : Option String → LocalFile → Result Bool × LocalFile
clear_author_guard ref file = elim (read_local_config file) [
  | err e ↦ (err e, file)
  | ok local_config ↦
      let guards = remaining ref local_config.author_guards in
      if eqb (length guards) (length local_config.author_guards)
      then (ok false, file)
      else (ok true, write_author_guards local_config guards)
]

abbrev pub text_at : Table → String → String
text_at raw key = strip_or_empty (get key raw)

unfoldable pub guard_from_mapping : Table → Option AuthorGuard
guard_from_mapping raw =
    if is_empty (text_at raw "project") || is_empty (text_at raw "kind")
    then none
    else some (record {
      project = text_at raw "project";
      kind = text_at raw "kind";
      id = text_at raw "id";
      ref = text_at raw "ref";
      target_project = text_at raw "target_project";
      author_agent = or_unknown (text_at raw "author_agent");
      author_session = text_at raw "author_session";
      worker = text_at raw "worker";
      created = text_at raw "created";
      required_next_action =
          if is_empty (text_at raw "required_next_action")
          then "STOP"
          else text_at raw "required_next_action";
    })

unfoldable pub guards_from : List Table → List AuthorGuard
guards_from [] = []
guards_from (raw ∷ tables) = elim (guard_from_mapping raw) [
  | none ↦ guards_from tables
  | some g ↦ g ∷ guards_from tables
]

unfoldable pub read_author_guards : LocalFile → Result (List AuthorGuard)
read_author_guards file = elim (read_local_config file) [
  | err e ↦ err plain_workflow
  | ok local_config ↦ ok (guards_from local_config.author_guards)
]

unfoldable pub guard_blocks_issue_lifecycle : AuthorGuard → IssuekitConfig → Option ℕ → Bool
guard_blocks_issue_lifecycle g config none = g.kind == "issue"
guard_blocks_issue_lifecycle g config (some n) =
    if not (g.kind == "issue")
    then false
    else if not (is_empty g.id)
    then g.id == show n
    else g.ref == String.◌++◌ config.project (String.◌++◌ "#" (show n))

unfoldable pub orchestration_allows_issue_lifecycle :
    AuthorGuard → Option AuthorOrchestrationContext → Bool
orchestration_allows_issue_lifecycle g none = false
orchestration_allows_issue_lifecycle g (some orchestration) =
    if g.author_agent == "unknown"
    then false
    else if not (orchestration.implementer_agent == g.author_agent)
    then true
    else not (is_empty g.author_session) && not (orchestration.run_session == g.author_session)

-- The value of the environment's variable, if it is set.
unfoldable pub enforce_author_handoff : Option String → Bool
unfolding strip parse_bool_value
enforce_author_handoff none = true
enforce_author_handoff (some raw) =
    if is_empty (strip raw)
    then true
    else elim (parse_bool_value raw) [ ok value ↦ value | err e ↦ true ]

unfoldable pub blocks :
    IssuekitConfig → Option ℕ → Option AuthorOrchestrationContext → AuthorGuard → Bool
blocks config issue_id orchestration g =
    g.project == config.project
    && guard_blocks_issue_lifecycle g config issue_id
    && not (orchestration_allows_issue_lifecycle g orchestration)

unfoldable pub enforce_no_author_guard :
    Option String
    → LocalFile
    → IssuekitConfig
    → Option ℕ
    → Bool
    → Option AuthorOrchestrationContext
    → Result (Unit {0})
enforce_no_author_guard env file config issue_id allow_override orchestration =
    if allow_override
    then ok tt
    else if not (enforce_author_handoff env)
    then ok tt
    else elim (read_author_guards file) [
      | err e ↦ err e
      | ok guards ↦
          if any (blocks config issue_id orchestration) guards
          then err (workflow "author_session_guard")
          else ok tt
    ]
