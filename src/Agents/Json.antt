-- ===== src/Agents/Json.antt =====
-- The values of JSON that agents answer, and prompts/fields.py and prompts/spec.py on them.
use issuekit.Prelude.{
  String, Bool, ◌||◌, Option, none, some, List, [], ◌∷◌, if◌then◌else◌, ◌==◌, is_empty, eqb, Result,
  ok, err, parse_error,
}
use Prim.Native.Char.{code}
use issuekit.Prelude.Text.{strip, lowers_to}

-- A number is kept as it is written.
mutual
  pub data Json : Type 0 where
    null : Json
    boolean : Bool → Json
    number : String → Json
    text : String → Json
    array : Items → Json
    object : Members → Json

  pub data Items : Type 0 where
    no_items : Items
    item : Json → Items → Items

  pub data Members : Type 0 where
    no_members : Members
    member : String → Json → Members → Members

-- `raw.get(key)`; a key that is missing reads as null.
unfoldable pub get_key : String → Members → Json
get_key key Members.no_members = Json.null
get_key key (Members.member k value entries) = if k == key then value else get_key key entries

unfoldable pub require_nonempty_text : Json → Result String
require_nonempty_text (Json.text s) = if is_empty (strip s) then err parse_error else ok (strip s)
require_nonempty_text _ = err parse_error

-- `.replace("-", "").replace("_", "").replace(" ", "")`
unfoldable pub drop_separators : String → String
drop_separators String.[] = String.[]
drop_separators (String.◌∷◌ c s) =
    let rest = drop_separators s in
    if eqb (code c) b'-' || eqb (code c) b'_' || eqb (code c) b' ' then rest else String.◌∷◌ c rest

-- The canonical values are written without separators or capitals, and without `k`.
unfoldable pub find_canonical : String → List String → Option String
find_canonical folded [] = none
find_canonical folded (canonical ∷ others) =
    if lowers_to folded (drop_separators canonical)
    then some canonical
    else find_canonical folded others

unfoldable pub canonical_contract_token : Json → List String → Option String
canonical_contract_token (Json.text s) values = find_canonical (drop_separators (strip s)) values
canonical_contract_token _ values = none
