-- ===== src/Agents/Router.antt =====
-- agents/router.py: the decision that a router's answer comes to, and the references of issues/dependencies.py.
pub mod Routed
pub mod Numbers
use Prim.Native.Char.{Char, code}
use Prim.Native.String
use issuekit.Prelude.{
  ℕ, suc, ◌+◌, String, Bool, true, false, not, ◌&&◌, ◌||◌, Option, none, some, List, [], ◌∷◌,
  if◌then◌else◌, ◌==◌, is_empty, eqb, leb, ltb, any, length, Result, ok, err, parse_error, guard,
  ◌>>=◌, ◌>>◌,
}
use issuekit.Prelude.Text.{cut}
use issuekit.Prelude.Decimal.{read_after}
use issuekit.Config.{has}
use issuekit.Agents.Json.{
  Json, Items, Members, get_key, require_nonempty_text, canonical_contract_token,
}

pub record RouteTarget : Type 0 where
  pub project : String
  pub title : String
  pub body : String
  pub blocking : Bool
  pub depends_on : List String

pub record RouterDecision : Type 0 where
  pub decision : String
  pub targets : List RouteTarget
  pub question : String
  pub reason : String

abbrev pub is_digit : ℕ → Bool
is_digit c = leb b'0' c && leb c b'9'

-- [A-Za-z0-9_.-]
abbrev pub is_project_char : ℕ → Bool
is_project_char c =
    (leb b'A' c && leb c b'Z')
    || (leb b'a' c && leb c b'z')
    || is_digit c
    || eqb c b'_'
    || eqb c b'.'
    || eqb c b'-'

unfoldable pub all_chars : (ℕ → Bool) → String → Bool
all_chars test String.[] = true
all_chars test (String.◌∷◌ c s) = test (code c) && all_chars test s

-- `[0-9]+`
unfoldable pub is_number : String → Bool
is_number s = not (is_empty s) && all_chars is_digit s

-- What stands after the `:` of `kind:`, if the text starts so.
unfoldable pub after_kind : String → String → Option String
after_kind kind s = elim (cut b':' s) [
  | none ↦ none
  | some (before, rest) ↦ if before == kind then some rest else none
]

-- `(?:(?:issue|proposal):)?[0-9]+`
unfoldable pub is_dependency_number : String → Bool
is_dependency_number s = elim (cut b':' s) [
  | none ↦ is_number s
  | some (before, rest) ↦ (before == "issue" || before == "proposal") && is_number rest
]

-- `DEPENDENCY_REF_PATTERN`, of a text that ends in no line break
unfoldable pub is_dependency_ref : String → Bool
is_dependency_ref s = elim (cut b'#' s) [
  | none ↦ false
  | some (project, suffix) ↦
      not (is_empty project) && all_chars is_project_char project && is_dependency_number suffix
]

-- The index of a placeholder `target:N`.
unfoldable pub placeholder_index : String → Option ℕ
placeholder_index s = elim (after_kind "target" s) [
  | none ↦ none
  | some digits ↦ if is_number digits then some (read_after 0 digits) else none
]

unfoldable pub check_reference : ℕ → String → Result String
check_reference target_index s = elim (placeholder_index s) [
  | some referenced ↦ if leb target_index referenced then err parse_error else ok s
  | none ↦ if is_dependency_ref s then ok s else err parse_error
]

unfoldable pub parse_references : ℕ → Items → Result (List String)
parse_references target_index Items.no_items = ok []
parse_references target_index (Items.item raw rest) = require_nonempty_text raw >>= λ s.
    check_reference target_index s >>= λ ref.
    parse_references target_index rest >>= λ refs. ok (ref ∷ refs)

-- `dict.fromkeys(refs)`, after those of `seen`
unfoldable pub without_repeats : List String → List String → List String
without_repeats seen [] = []
without_repeats seen (ref ∷ refs) =
    if has ref seen then without_repeats seen refs else ref ∷ without_repeats (ref ∷ seen) refs

abbrev unrepeated : Result (List String) → Result (List String)
unrepeated refs = refs >>= λ found. ok (without_repeats [] found)

unfoldable pub parse_dependency_tuple : Json → ℕ → Result (List String)
parse_dependency_tuple Json.null target_index = ok []
parse_dependency_tuple (Json.text s) target_index =
    unrepeated (parse_references target_index (Items.item (Json.text s) Items.no_items))
parse_dependency_tuple (Json.array items) target_index =
    unrepeated (parse_references target_index items)
parse_dependency_tuple _ target_index = err parse_error

-- `raw_target.get("blocking", False)`: a key that is missing is false, null is refused.
unfoldable pub blocking_of : Members → Result Bool
blocking_of Members.no_members = ok false
blocking_of (Members.member key (Json.boolean b) entries) =
    if key == "blocking" then ok b else blocking_of entries
blocking_of (Members.member key value entries) =
    if key == "blocking" then err parse_error else blocking_of entries

unfoldable pub parse_target : List String → ℕ → Json → Result RouteTarget
parse_target candidates index (Json.object raw) = do
  project ← require_nonempty_text (get_key "project" raw)
  guard (has project candidates) parse_error
  title ← require_nonempty_text (get_key "title" raw)
  body ← require_nonempty_text (get_key "body" raw)
  blocking ← blocking_of raw
  depends_on ← parse_dependency_tuple (get_key "depends_on" raw) index
  ok (record {
    project = project;
    title = title;
    body = body;
    blocking = blocking;
    depends_on = depends_on;
  })
parse_target candidates index _ = err parse_error

-- The loop over the targets, from the one with this index on.
unfoldable pub parse_targets : List String → ℕ → Items → Result (List RouteTarget)
parse_targets candidates index Items.no_items = ok []
parse_targets candidates index (Items.item raw rest) = do
  target ← parse_target candidates index raw
  targets ← parse_targets candidates (suc index) rest
  ok (target ∷ targets)

unfoldable pub count_items : Items → ℕ
count_items Items.no_items = 0
count_items (Items.item raw rest) = suc (count_items rest)

unfoldable pub route_decision : List String → ℕ → Json → Result RouterDecision
route_decision candidates max_targets (Json.array items) = do
  guard (not (eqb (count_items items) 0)) parse_error
  guard (leb (count_items items) max_targets) parse_error
  targets ← parse_targets candidates 0 items
  ok (record { decision = "route"; targets = targets; question = ""; reason = "" })
route_decision candidates max_targets _ = err parse_error

unfoldable pub decide : List String → ℕ → Members → Option String → Result RouterDecision
decide candidates max_targets raw none = err parse_error
decide candidates max_targets raw (some decision) =
    if decision == "clarify"
    then (require_nonempty_text (get_key "question" raw) >>= λ question.
        ok (record { decision = "clarify"; targets = []; question = question; reason = "" }))
    else if decision == "reject"
    then (require_nonempty_text (get_key "reason" raw) >>= λ reason.
        ok (record { decision = "reject"; targets = []; question = ""; reason = reason }))
    else route_decision candidates max_targets (get_key "targets" raw)

unfoldable pub decision_from_json : List String → ℕ → Members → Result RouterDecision
decision_from_json candidates max_targets raw =
    decide candidates max_targets raw
      (canonical_contract_token (get_key "decision" raw) ("route" ∷ "clarify" ∷ "reject" ∷ []))
