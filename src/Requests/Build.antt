-- ===== src/Requests/Build.antt =====
-- proposals/build.py: the proposal of a draft, as the requests build it: with a title and a body, and neither
-- an issue nor a reply. The search of the body with regular expressions is a parameter; the date and the
-- warnings, which nothing here reads, are left out. dependency_refs is of issues/dependencies.py.
use Prim.Native.Char.{Char, code}
use Prim.Native.String
use issuekit.Prelude.{
  String, Bool, not, ◌||◌, Option, List, [], ◌∷◌, ◌++◌, if◌then◌else◌, is_empty, eqb, or_empty,
  Result, ok, err, guard, ◌>>=◌, ◌>>◌, proposal_error,
}
use issuekit.Prelude.Text.{strip, is_space, has_non_ascii}
use issuekit.Core.Address.{TargetAddress, parse_target_address, directed_worker}
use issuekit.Agents.Router.{is_dependency_ref, without_repeats}
use issuekit.Requests.State.{or_unknown}

-- What `build_proposal` is called with, and the origin that the caller gives the proposal afterwards.
pub record Draft : Type 0 where
  pub project : String
  pub title : String
  pub body : String
  pub blocking : Bool
  pub depends_on : List String
  pub origin : String

pub record Proposal : Type 0 where
  pub origin : String
  pub to : String
  pub target_worker : String
  pub title : String
  pub body : String
  pub blocking : Bool
  pub depends_on : List String

-- `[\s,]`
abbrev is_separator : Char → Bool
is_separator c = is_space (code c) || eqb (code c) b','

abbrev add_first : Char → List String → List String
add_first c [] = String.◌∷◌ c "" ∷ []
add_first c (piece ∷ pieces) = String.◌∷◌ c piece ∷ pieces

-- The texts between separators; between two that meet it is empty.
unfoldable pub pieces_of : String → List String
pieces_of String.[] = "" ∷ []
pieces_of (String.◌∷◌ c s) =
    let rest = pieces_of s in if is_separator c then "" ∷ rest else add_first c rest

abbrev is_stop : Char → Bool
is_stop c = eqb (code c) b'.' || eqb (code c) b';'

unfoldable pub without_leading_stops : String → String
without_leading_stops String.[] = ""
without_leading_stops (String.◌∷◌ c s) =
    let rest = without_leading_stops s in if is_stop c then rest else String.◌∷◌ c s

abbrev unless_stop : Char → String → String
unless_stop c String.[] = if is_stop c then "" else String.◌∷◌ c ""
unless_stop c (String.◌∷◌ d s) = String.◌∷◌ c (String.◌∷◌ d s)

unfoldable pub without_trailing_stops : String → String
without_trailing_stops String.[] = ""
without_trailing_stops (String.◌∷◌ c s) = unless_stop c (without_trailing_stops s)

-- `raw.strip().strip(".;")`
unfoldable pub reference_of : String → String
unfolding without_leading_stops without_trailing_stops
reference_of raw = without_trailing_stops (without_leading_stops (strip raw))

unfoldable pub checked_refs : List String → Result (List String)
checked_refs [] = ok []
checked_refs (raw ∷ pieces) =
    let ref = reference_of raw in
    let rest = checked_refs pieces in
    if is_empty ref
    then rest
    else if is_dependency_ref ref
    then (rest >>= λ refs. ok (ref ∷ refs))
    else err proposal_error

-- `_split_dependency_refs`
abbrev split_dependency_refs : String → Result (List String)
split_dependency_refs value = checked_refs (pieces_of value)

unfoldable pub raw_items : List String → Result (List String)
raw_items [] = ok []
raw_items (item ∷ items) =
    split_dependency_refs item >>= λ refs. raw_items items >>= λ rest. ok (refs ++ rest)

-- `dependency_refs`; its error is the one that `_dependency_tuple` raises for it.
unfoldable pub dependency_refs : List String → Result (List String)
unfolding raw_items
dependency_refs items = raw_items items >>= λ refs. ok (without_repeats [] refs)

-- `parse_target_address`, with the error of the proposals.
abbrev address_of : String → Result TargetAddress
address_of to = elim (parse_target_address to) [
  | err _ ↦ err proposal_error
  | ok target ↦ ok target
]

unfoldable pub build_proposal :
    Option String → String → Option String → (String → List String) → Draft → Result Proposal
unfolding dependency_refs
build_proposal api_url project short_head structured_refs draft = do
  guard (not (is_empty (or_empty api_url))) proposal_error
  guard (not (is_empty draft.project)) proposal_error
  target ← address_of draft.project
  guard (not (is_empty draft.title)) proposal_error
  let body = strip draft.body
  guard (not (has_non_ascii draft.title || has_non_ascii body)) proposal_error
  refs ← dependency_refs draft.depends_on
  ok (record {
    origin = String.◌++◌ project (String.◌++◌ "#0@" (or_unknown short_head));
    to = target.repo;
    target_worker = directed_worker target;
    title = draft.title;
    body = body;
    blocking = draft.blocking;
    depends_on = without_repeats [] (refs ++ without_repeats [] (structured_refs body));
  })
