-- ===== src/Agents/Review.antt =====
-- agents/review_output.py: the verdict that a reviewer's answer comes to, and the cleaning of its texts
-- to ASCII in encoding/detect.py and prompts/fields.py. `unicodedata.normalize` is a parameter.
pub mod Verdict
use Prim.Native.Char.{Char, code}
use Prim.Native.String
use issuekit.Prelude.{
  ℕ, String, Bool, true, false, not, ◌&&◌, ◌||◌, Option, none, some, List, [], ◌∷◌, if◌then◌else◌,
  ◌==◌, is_empty, eqb, leb, Result, ok, err, parse_error, guard, ◌>>=◌, ◌>>◌,
}
use issuekit.Prelude.Text.{strip, join, has_non_ascii}
use issuekit.Agents.Json.{Json, Items, Members, get_key, canonical_contract_token}

pub record ReviewVerdict : Type 0 where
  pub verdict : String
  pub verification : String
  pub notes : String

-- `_ASCII_PUNCTUATION_TRANSLATION`
unfoldable pub translated : Char → String
translated c =
    let n = code c in
    if (leb 8208 n && leb n 8213) || eqb n 8722
    then "-"
    else if leb 8216 n && leb n 8219
    then "'"
    else if leb 8220 n && leb n 8223
    then "\""
    else if eqb n 8230
    then "..."
    else String.◌∷◌ c String.[]

unfoldable pub translate : String → String
translate String.[] = String.[]
translate (String.◌∷◌ c s) = String.◌++◌ (translated c) (translate s)

-- `.encode("ascii", errors="ignore").decode("ascii")`
unfoldable pub drop_non_ascii : String → String
drop_non_ascii String.[] = String.[]
drop_non_ascii (String.◌∷◌ c s) =
    let rest = drop_non_ascii s in if leb 128 (code c) then rest else String.◌∷◌ c rest

unfoldable pub sanitize_to_ascii : (String → String) → String → String
sanitize_to_ascii normalize text =
    if not (has_non_ascii text) then text else drop_non_ascii (normalize (translate text))

abbrev pub marker : String → String
marker key = String.◌++◌ "[" (String.◌++◌ key " sanitized from non-ASCII]")

unfoldable pub sanitize_ascii_field : (String → String) → String → String → String
sanitize_ascii_field normalize key value =
    if not (has_non_ascii value)
    then value
    else let sanitized = strip (sanitize_to_ascii normalize value) in
      if is_empty sanitized
      then marker key
      else String.◌++◌ sanitized (String.◌++◌ "\n\n" (marker key))

unfoldable pub texts_of : Items → Result (List String)
texts_of Items.no_items = ok []
texts_of (Items.item (Json.text s) rest) = texts_of rest >>= λ others. ok (s ∷ others)
texts_of (Items.item other rest) = err parse_error

unfoldable pub entries_of : Members → Result (List String)
entries_of Members.no_members = ok []
entries_of (Members.member key (Json.text s) rest) =
    entries_of rest >>= λ others. ok (String.◌++◌ key (String.◌++◌ ": " s) ∷ others)
entries_of (Members.member key other rest) = err parse_error

-- A text, or a list or a table of texts.
unfoldable pub required_review_text : Json → Result String
required_review_text (Json.text s) = ok s
required_review_text (Json.array items) = texts_of items >>= λ lines. ok (join "\n" lines)
required_review_text (Json.object entries) = entries_of entries >>= λ lines. ok (join "\n" lines)
required_review_text _ = err parse_error

unfoldable pub has_key : String → Members → Bool
has_key key Members.no_members = false
has_key key (Members.member k value rest) = k == key || has_key key rest

abbrev pub required : Members → Bool
required raw = has_key "verdict" raw && has_key "verification" raw && has_key "notes" raw

unfoldable pub require_str : Json → Result String
require_str (Json.text s) = ok s
require_str _ = err parse_error

unfoldable pub canonical_verdict : Json → Result String
canonical_verdict raw = elim (canonical_contract_token raw ("approve" ∷ "request-changes" ∷ [])) [
  | none ↦ err parse_error
  | some verdict ↦ ok verdict
]

module _ (normalize : String → String) where
  -- The text of a key, stripped and cleaned.
  unfoldable pub review_field : String → Members → Result String
  review_field key raw = required_review_text (get_key key raw) >>= λ value.
      ok (sanitize_ascii_field normalize key (strip value))

  unfoldable pub review_verdict_from_json : Members → Result ReviewVerdict
  review_verdict_from_json raw = do
    guard (required raw) parse_error
    raw_verdict ← require_str (get_key "verdict" raw)
    verdict ← canonical_verdict (Json.text raw_verdict)
    verification ← review_field "verification" raw
    notes ← review_field "notes" raw
    guard (not (verdict == "approve" && is_empty verification)) parse_error
    guard (not (verdict == "request-changes" && is_empty notes)) parse_error
    guard (not (has_non_ascii verdict)) parse_error
    ok (record { verdict = verdict; verification = verification; notes = notes })
