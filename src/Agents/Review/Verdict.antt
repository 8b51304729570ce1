-- ===== src/Agents/Review/Verdict.antt =====
-- What holds of every verdict that is accepted.
use Prim.Native.Char.{Char, code}
use Prim.Native.String
use mathlib.Core.Path.{subst}
use text.Mathlib.TextLemmas.{nil-append, cons-append}
use issuekit.Prelude.{
  String, ◌≡◌, refl, true, false, not, ◌&&◌, ◌||◌, ◌⊎◌, inl, inr, ◌==◌, is_empty, leb, Result, ok,
  parse_error, guard, arith, ap, sym, ◌∙◌, Bool-cases, eq_iff, bind_ok, guard_ok,
}
use issuekit.Prelude.Text.{strip, lstrip, rstrip, trimmed, has_non_ascii, is_space}
use issuekit.Agents.Json.{Json, Members, get_key, canonical_contract_token, find_canonical}
use issuekit.Agents.Review.{
  ReviewVerdict, drop_non_ascii, translate, sanitize_to_ascii, marker, sanitize_ascii_field,
  required_review_text, required, require_str, canonical_verdict, review_field,
  review_verdict_from_json,
}

has_non_ascii-append :
    (s t : String) → has_non_ascii (String.◌++◌ s t) ≡ (has_non_ascii s || has_non_ascii t)
unfolding has_non_ascii
has_non_ascii-append String.[] t = rw nil-append
has_non_ascii-append (String.◌∷◌ c s) t = rw cons-append (ground (arith, has_non_ascii-append s t))

has_non_ascii-drop : (s : String) → has_non_ascii (drop_non_ascii s) ≡ false
unfolding has_non_ascii drop_non_ascii
has_non_ascii-drop String.[] = refl
has_non_ascii-drop (String.◌∷◌ c s) = ground (arith, has_non_ascii-drop s)

has_non_ascii-lstrip : (s : String) → has_non_ascii s ≡ false → has_non_ascii (lstrip s) ≡ false
unfolding has_non_ascii lstrip
has_non_ascii-lstrip String.[] h = refl
has_non_ascii-lstrip (String.◌∷◌ c s) h = ground (arith, has_non_ascii-lstrip s)

has_non_ascii-trimmed :
    (c : Char) (s : String)
    → leb 128 (code c) ≡ false
    → has_non_ascii s ≡ false
    → has_non_ascii (trimmed c s) ≡ false
unfolding has_non_ascii
has_non_ascii-trimmed c String.[] h k = elim (Bool-cases (is_space (code c))) [
  | inl blank ↦ rw blank refl
  | inr letter ↦ rw letter (ground arith)
]
has_non_ascii-trimmed c (String.◌∷◌ d s) h k = ground arith

has_non_ascii-rstrip : (s : String) → has_non_ascii s ≡ false → has_non_ascii (rstrip s) ≡ false
unfolding has_non_ascii rstrip
has_non_ascii-rstrip String.[] h = refl
has_non_ascii-rstrip (String.◌∷◌ c s) h =
    has_non_ascii-trimmed c (rstrip s) (ground arith) (has_non_ascii-rstrip s (ground arith))

has_non_ascii-strip : (s : String) → has_non_ascii s ≡ false → has_non_ascii (strip s) ≡ false
unfolding strip
has_non_ascii-strip s h = has_non_ascii-rstrip (lstrip s) (has_non_ascii-lstrip s h)

has_non_ascii-marker :
    (key : String) → has_non_ascii key ≡ false → has_non_ascii (marker key) ≡ false
unfolding has_non_ascii
has_non_ascii-marker key h =
    let outer = has_non_ascii-append "[" (String.◌++◌ key " sanitized from non-ASCII]") in
    let inner = has_non_ascii-append key " sanitized from non-ASCII]" in rw (outer, inner, h) refl

sanitize_to_ascii-ascii :
    (normalize : String → String) (s : String)
    → has_non_ascii (sanitize_to_ascii normalize s) ≡ false
unfolding sanitize_to_ascii
sanitize_to_ascii-ascii normalize s = elim (Bool-cases (has_non_ascii s)) [
  | inl foreign ↦ rw foreign (has_non_ascii-drop (normalize (translate s)))
  | inr plain ↦ rw plain plain
]

sanitize_ascii_field-ascii :
    (normalize : String → String) (key s : String)
    → has_non_ascii key ≡ false
    → has_non_ascii (sanitize_ascii_field normalize key s) ≡ false
unfolding sanitize_ascii_field has_non_ascii
sanitize_ascii_field-ascii normalize key s h = elim (Bool-cases (has_non_ascii s)) [
  | inr plain ↦ rw plain plain
  | inl foreign ↦
      let cleaned = strip (sanitize_to_ascii normalize s) in
      elim (Bool-cases (is_empty cleaned)) [
        | inl gone ↦ rw (foreign, gone) (has_non_ascii-marker key h)
        | inr left ↦
            rw
              (
                foreign,
                left,
                has_non_ascii-append cleaned (String.◌++◌ "\n\n" (marker key)),
                has_non_ascii-strip (sanitize_to_ascii normalize s)
                    (sanitize_to_ascii-ascii normalize s),
                has_non_ascii-append "\n\n" (marker key),
                has_non_ascii-marker key h,
              )
              refl
      ]
]

review_field-ascii :
    (normalize : String → String) (key : String) (raw : Members) {s : String}
    → has_non_ascii key ≡ false
    → review_field normalize key raw ≡ ok s
    → has_non_ascii s ≡ false
unfolding review_field
review_field-ascii normalize key raw {s} ascii h =
    let (value, read, h) = bind_ok (required_review_text (get_key key raw)) _ h in
    let same : sanitize_ascii_field normalize key (strip value) ≡ s = cc in
    ap has_non_ascii (sym same) ∙ sanitize_ascii_field-ascii normalize key (strip value) ascii

canonical_verdict-one :
    (raw : Json) {verdict : String}
    → canonical_verdict raw ≡ ok verdict
    → (verdict ≡ "approve") ⊎ (verdict ≡ "request-changes")
unfolding canonical_verdict canonical_contract_token find_canonical
canonical_verdict-one Json.null h = cc
canonical_verdict-one (Json.boolean b) h = cc
canonical_verdict-one (Json.number n) h = cc
canonical_verdict-one (Json.array items) h = cc
canonical_verdict-one (Json.object entries) h = cc
canonical_verdict-one (Json.text s) h = ground arith

-- What holds of a verdict: its texts are ASCII, and the text that its decision rests on is there.
pub record IsVerdict (v : ReviewVerdict) : Type 0 where
  pub verification_ascii : has_non_ascii v.verification ≡ false
  pub notes_ascii : has_non_ascii v.notes ≡ false
  pub grounded :
      ((v.verdict ≡ "approve") × (is_empty v.verification ≡ false))
      ⊎ ((v.verdict ≡ "request-changes") × (is_empty v.notes ≡ false))

grounded_by :
    (verdict verification notes : String)
    → (verdict ≡ "approve") ⊎ (verdict ≡ "request-changes")
    → not (verdict == "approve" && is_empty verification) ≡ true
    → not (verdict == "request-changes" && is_empty notes) ≡ true
    → ((verdict ≡ "approve") × (is_empty verification ≡ false))
      ⊎ ((verdict ≡ "request-changes") × (is_empty notes ≡ false))
grounded_by verdict verification notes (inl approve) verified noted =
    inl (approve, ground (arith, eq_iff verdict "approve"))
grounded_by verdict verification notes (inr changes) verified noted =
    inr (changes, ground (arith, eq_iff verdict "request-changes"))

-- Whatever a reviewer answers and however texts are normalized, a verdict that is accepted approves with
-- a verification that is not empty or asks for changes with notes that are not empty, and both of its
-- texts are ASCII.
pub review_verdict_from_json-IsVerdict :
    (normalize : String → String) (raw : Members) {v : ReviewVerdict}
    → review_verdict_from_json normalize raw ≡ ok v
    → IsVerdict v
unfolding review_verdict_from_json has_non_ascii
review_verdict_from_json-IsVerdict normalize raw {v} h =
    let (t, keys, h) = bind_ok (guard (required raw) parse_error) _ h in
    let (word, read, h) = bind_ok (require_str (get_key "verdict" raw)) _ h in
    let (verdict, canonical, h) = bind_ok (canonical_verdict (Json.text word)) _ h in
    let (verification, verified, h) = bind_ok (review_field normalize "verification" raw) _ h in
    let (notes, noted, h) = bind_ok (review_field normalize "notes" raw) _ h in
    let (t, approved, h) =
      bind_ok (guard (not (verdict == "approve" && is_empty verification)) parse_error) _ h in
    let (t, asked, h) =
      bind_ok (guard (not (verdict == "request-changes" && is_empty notes)) parse_error) _ h in
    let (t, plain, h) = bind_ok (guard (not (has_non_ascii verdict)) parse_error) _ h in
    let made : ReviewVerdict = record {
      verdict = verdict;
      verification = verification;
      notes = notes;
    } in
    let e : ◌≡◌ {A = Result ReviewVerdict} (ok made) (ok v) = h in
    let same : made ≡ v = cc in
    let holds : IsVerdict made = record {
      verification_ascii = review_field-ascii normalize "verification" raw refl verified;
      notes_ascii = review_field-ascii normalize "notes" raw refl noted;
      grounded =
          grounded_by verdict verification notes (canonical_verdict-one (Json.text word) canonical)
            (guard_ok (not (verdict == "approve" && is_empty verification)) parse_error approved)
            (guard_ok (not (verdict == "request-changes" && is_empty notes)) parse_error asked);
    } in
    subst IsVerdict same holds
