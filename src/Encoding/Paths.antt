-- ===== src/Encoding/Paths.antt =====
-- encoding/detect.py: which paths are excluded. A path is given as `Path.as_posix` writes it, and
-- `fnmatch.fnmatchcase` is a parameter.
use issuekit.Prelude.{
  ℕ, String, Bool, true, false, ◌&&◌, List, [], ◌∷◌, if◌then◌else◌, ◌≡◌, ◌==◌, any, eqb,
}
use Prim.Native.Char.{Char, code}

-- `path[index:]` for each index of `range(len(path) + 1)`
abbrev pub suffixes : List String → List (List String)
suffixes [] = [] ∷ []
suffixes (part ∷ path) = (part ∷ path) ∷ suffixes path

-- The text with its first character before the first part.
abbrev before_first : Char → List String → List String
before_first c [] = String.◌∷◌ c "" ∷ []
before_first c (part ∷ parts) = String.◌∷◌ c part ∷ parts

-- `s.split(chr(k))`
unfoldable pub split_at : ℕ → String → List String
split_at k String.[] = "" ∷ []
split_at k (String.◌∷◌ c s) =
    let rest = split_at k s in if eqb (code c) k then "" ∷ rest else before_first c rest

-- `pattern.replace("\\", "/")`
unfoldable pub with_slashes : String → String
with_slashes String.[] = ""
with_slashes (String.◌∷◌ c s) = String.◌∷◌ (if eqb (code c) b'\\' then "/" else c) (with_slashes s)

module _ (fnmatchcase : String → String → Bool) where
  -- The first part matches, and the others do.
  abbrev first_matches : String → (List String → Bool) → List String → Bool
  first_matches pattern others [] = false
  first_matches pattern others (part ∷ path) = fnmatchcase part pattern && others path

  unfoldable pub matches_path_parts : List String → List String → Bool
  matches_path_parts [] [] = true
  matches_path_parts (part ∷ path) [] = false
  matches_path_parts path (pattern ∷ patterns) =
      let others : List String → Bool = λ rest. matches_path_parts rest patterns in
      if pattern == "**" then any others (suffixes path) else first_matches pattern others path

  unfoldable pub is_encoding_excluded_path : String → List String → Bool
  is_encoding_excluded_path file patterns =
      any
        (λ pattern. matches_path_parts (split_at b'/' file) (split_at b'/' (with_slashes pattern)))
        patterns

  -- Which paths a pattern is meant to match: `**` stands for any number of parts, any other part of the
  -- pattern for one part.
  pub data IsMatch : List String → List String → Type 0 where
    done : IsMatch [] []
    none_of : {path patterns : List String} → IsMatch path patterns → IsMatch path ("**" ∷ patterns)
    one_of :
        {part : String} {path patterns : List String}
        → IsMatch path ("**" ∷ patterns)
        → IsMatch (part ∷ path) ("**" ∷ patterns)
    part :
        {part pattern : String} {path patterns : List String}
        → (pattern == "**") ≡ false
        → fnmatchcase part pattern ≡ true
        → IsMatch path patterns
        → IsMatch (part ∷ path) (pattern ∷ patterns)
