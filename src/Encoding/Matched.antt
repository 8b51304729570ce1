-- ===== src/Encoding/Matched.antt =====
-- About `_matches_path_parts` of encoding/detect.py.
use mathlib.Core.Path.{subst}
use issuekit.Prelude.{
  String, Bool, true, false, ◌&&◌, List, [], ◌∷◌, ◌≡◌, ◌↔◌, refl, sym, ap, ◌∙◌, ◌==◌, any, arith,
  inl, inr, Bool-cases, eq_iff,
}
use issuekit.Encoding.Paths.{suffixes, matches_path_parts, IsMatch}

module _ (fnmatchcase : String → String → Bool) where
  abbrev Accepts : List String → List String → Type 0
  Accepts patterns path = matches_path_parts fnmatchcase path patterns ≡ true

  star-any :
      (path patterns : List String)
      → matches_path_parts fnmatchcase path ("**" ∷ patterns)
        ≡ any (λ rest. matches_path_parts fnmatchcase rest patterns) (suffixes path)
  unfolding matches_path_parts
  star-any [] patterns = refl
  star-any (part ∷ path) patterns = refl

  part-first :
      (part pattern : String) (path patterns : List String)
      → (pattern == "**") ≡ false
      → matches_path_parts fnmatchcase (part ∷ path) (pattern ∷ patterns)
        ≡ (fnmatchcase part pattern && matches_path_parts fnmatchcase path patterns)
  unfolding matches_path_parts
  part-first part pattern path patterns plain = rw plain refl

  no_part :
      (pattern : String) (patterns : List String)
      → (pattern == "**") ≡ false
      → matches_path_parts fnmatchcase [] (pattern ∷ patterns) ≡ false
  unfolding matches_path_parts
  no_part pattern patterns plain = rw plain refl

  star-IsMatch :
      (path patterns : List String)
      → ((rest : List String) → Accepts patterns rest → IsMatch fnmatchcase rest patterns)
      → any (λ rest. matches_path_parts fnmatchcase rest patterns) (suffixes path) ≡ true
      → IsMatch fnmatchcase path ("**" ∷ patterns)
  star-IsMatch [] patterns each h = IsMatch.none_of (each [] (ground arith))
  star-IsMatch (part ∷ path) patterns each h =
      elim (Bool-cases (matches_path_parts fnmatchcase (part ∷ path) patterns)) [
        | inl now ↦ IsMatch.none_of (each (part ∷ path) now)
        | inr later ↦ IsMatch.one_of (star-IsMatch path patterns each (ground arith))
      ]

  plain-IsMatch :
      (pattern : String) (patterns path : List String)
      → (pattern == "**") ≡ false
      → ((rest : List String) → Accepts patterns rest → IsMatch fnmatchcase rest patterns)
      → Accepts (pattern ∷ patterns) path
      → IsMatch fnmatchcase path (pattern ∷ patterns)
  plain-IsMatch pattern patterns [] plain each h = let bad = no_part pattern patterns plain in cc
  plain-IsMatch pattern patterns (part ∷ path) plain each h =
      let both = sym (part-first part pattern path patterns plain) ∙ h in
      IsMatch.part plain (ground arith) (each path (ground arith))

  matches_path_parts_sound :
      (patterns path : List String) → Accepts patterns path → IsMatch fnmatchcase path patterns
  unfolding matches_path_parts
  matches_path_parts_sound [] [] h = IsMatch.done
  matches_path_parts_sound [] (part ∷ path) h = cc
  matches_path_parts_sound (pattern ∷ patterns) path h = elim (Bool-cases (pattern == "**")) [
    | inl star ↦
        let e : pattern ≡ "**" = ground (arith, eq_iff pattern "**") in
        let accepted =
          sym (star-any path patterns)
          ∙ ap (λ p. matches_path_parts fnmatchcase path (p ∷ patterns)) (sym e)
          ∙ h in
        subst (λ p. IsMatch fnmatchcase path (p ∷ patterns)) (sym e)
          (star-IsMatch path patterns (matches_path_parts_sound patterns) accepted)
    | inr plain ↦ plain-IsMatch pattern patterns path plain (matches_path_parts_sound patterns) h
  ]

  any-first : (path patterns : List String) → Accepts patterns path → Accepts ("**" ∷ patterns) path
  any-first [] patterns h = star-any [] patterns ∙ ground arith
  any-first (part ∷ path) patterns h = star-any (part ∷ path) patterns ∙ ground arith

  matches_path_parts_complete :
      {path patterns : List String} → IsMatch fnmatchcase path patterns → Accepts patterns path
  unfolding matches_path_parts
  matches_path_parts_complete IsMatch.done = refl
  matches_path_parts_complete (IsMatch.none_of {path} {patterns} m) =
      any-first path patterns (matches_path_parts_complete m)
  matches_path_parts_complete (IsMatch.one_of {part} {path} {patterns} m) =
      let ih = sym (star-any path patterns) ∙ matches_path_parts_complete m in
      star-any (part ∷ path) patterns ∙ ground arith
  matches_path_parts_complete (IsMatch.part {part} {pattern} {path} {patterns} plain fits m) =
      part-first part pattern path patterns plain
      ∙ (let ih = matches_path_parts_complete m in ground arith)

-- The matching of the parts of a path accepts just the paths that the pattern is meant to match, whatever a
-- single part matches.
pub matches_path_parts-IsMatch :
    (fnmatchcase : String → String → Bool) (path patterns : List String)
    → (matches_path_parts fnmatchcase path patterns ≡ true) ↔ IsMatch fnmatchcase path patterns
matches_path_parts-IsMatch fnmatchcase path patterns =
    (matches_path_parts_sound fnmatchcase patterns path, matches_path_parts_complete fnmatchcase)
