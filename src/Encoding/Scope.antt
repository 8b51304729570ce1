-- ===== src/Encoding/Scope.antt =====
-- About `scan_mojibake` of encoding/scan.py: which hits it reports.
use issuekit.Prelude.{
  ℕ, String, Bool, true, false, not, ◌||◌, ◌&&◌, Option, none, some, List, [], ◌∷◌, ◌++◌, ◌==◌, any,
  select, All, ◌≡◌, refl, ap, ◌∙◌, arith, inl, inr, Bool-cases, Option-cases,
}
use issuekit.Prelude.Text.{has_non_ascii}
use issuekit.Encoding.Lines.{newline_offsets, line_number_at}
use issuekit.Encoding.Window.{
  Hit, mojibake_hit, add_hit, hits_from, confirmed_mojibake_hits, confirmed_recovery, slice,
  non_ascii_window, same_window,
}
use issuekit.Encoding.Scan.{
  find_encoding_artifacts, MojibakeScanOptions, Content, Hits, is_excluded, scope_of, in_scope,
  kept, text_hits, is_wanted, content_hits, file_hits, scan_mojibake, has_source_extension,
  source_extensions,
}

All-append : {A : Type 0} (P : A → Type 0) (xs ys : List A) → All P xs → All P ys → All P (xs ++ ys)
All-append P [] ys left right = right
All-append P (x ∷ xs) ys (one, left) right = (one, All-append P xs ys left right)

All-select :
    {A : Type 0} (test : A → Bool) (xs : List A) → All (λ x. test x ≡ true) (select test xs)
All-select test [] = tt
All-select test (x ∷ xs) = elim (Bool-cases (test x)) [
  | inl fits ↦ rw fits (fits, All-select test xs)
  | inr other ↦ rw other (All-select test xs)
]

All-map :
    {A : Type 0} (P Q : A → Type 0) (xs : List A) → ((x : A) → P x → Q x) → All P xs → All Q xs
All-map P Q [] imply all = tt
All-map P Q (x ∷ xs) imply (one, all) = (imply x one, All-map P Q xs imply all)

abbrev Both : (Hit → Type 0) → (Hit → Type 0) → Hits → Type 0
Both P Q (confirmed, unconfirmed) = All P confirmed × All Q unconfirmed

-- A hit of this file, in its scope.
abbrev Here : String → Option (List ℕ) → Hit → Type 0
Here file scope hit = (hit.file ≡ file) × (in_scope scope hit.line ≡ true)

module _ (reverse_cp932 : String → Option String) (file : String) (scope : Option (List ℕ)) where
  add_hit-Here :
      (hit : Hit) (recovered : Option String) (hits : Hits)
      → Here file scope hit
      → Both (Here file scope) (Here file scope) hits
      → Both (Here file scope) (Here file scope) (add_hit reverse_cp932 hit recovered hits)
  add_hit-Here hit none (confirmed, unconfirmed) here (all, others) = (all, (here, others))
  add_hit-Here hit (some recovered) (confirmed, unconfirmed) here (all, others) =
      ((here, all), others)

  hits_from-Here :
      (text : String) (offsets : List ℕ) (checked : List (ℕ × ℕ)) (places : List (ℕ × String))
      → All (λ (place : ℕ × String). in_scope scope (line_number_at offsets place.0) ≡ true) places
      → Both
          (Here file scope)
          (Here file scope)
          (hits_from reverse_cp932 file text offsets checked places)
  unfolding hits_from mojibake_hit
  hits_from-Here text offsets checked [] all = (tt, tt)
  hits_from-Here text offsets checked ((index, character) ∷ places) (one, all) =
      let window = non_ascii_window text index in
      elim (Bool-cases (any (same_window window) checked)) [
        | inl old ↦ rw old (hits_from-Here text offsets checked places all)
        | inr new ↦ rw new (
            add_hit-Here (mojibake_hit file offsets index character)
              (confirmed_recovery reverse_cp932 (slice window text))
              (hits_from reverse_cp932 file text offsets (window ∷ checked) places) (refl, one)
              (hits_from-Here text offsets (window ∷ checked) places all))
      ]

module _ (fnmatchcase : String → String → Bool) (reverse_cp932 : String → Option String)
    (options : MojibakeScanOptions) (changed : Option (String → List ℕ)) (whole : List String) where
  abbrev scope : String → Option (List ℕ)
  scope file = scope_of fnmatchcase reverse_cp932 options changed whole file

  abbrev excluded : String → Bool
  excluded file = is_excluded fnmatchcase reverse_cp932 options file

  -- What a hit is that is reported as confirmed, and one that is not.
  abbrev pub IsConfirmed : Hit → Type 0
  IsConfirmed hit =
      ((excluded hit.file && options.exclude_confirmed) ≡ false)
      × ((hit.character == "invalid UTF-8" || in_scope (scope hit.file) hit.line) ≡ true)

  abbrev pub IsUnconfirmed : Hit → Type 0
  IsUnconfirmed hit =
      ((excluded hit.file && options.exclude_unconfirmed) ≡ false)
      × (in_scope (scope hit.file) hit.line ≡ true)

  -- A confirmed hit of this file, which may be that it is no UTF-8.
  abbrev Somewhere : String → Hit → Type 0
  Somewhere file hit =
      (hit.file ≡ file)
      × ((hit.character == "invalid UTF-8" || in_scope (scope file) hit.line) ≡ true)

  Here-Somewhere : (file : String) (hit : Hit) → Here file (scope file) hit → Somewhere file hit
  Here-Somewhere file hit (e, within) = (e, ground arith)

  text_hits-Here :
      (file text : String)
      → Both
          (Somewhere file)
          (Here file (scope file))
          (text_hits fnmatchcase reverse_cp932 options (scope file) file text)
  unfolding text_hits confirmed_mojibake_hits
  text_hits-Here file text = elim (Bool-cases (has_non_ascii text)) [
    | inr ascii ↦ rw ascii (tt, tt)
    | inl wide ↦
        let offsets = newline_offsets text in
        let places = find_encoding_artifacts options.include_halfwidth_katakana text in
        let test = λ (place : ℕ × String). in_scope (scope file) (line_number_at offsets place.0) in
        let (all, others) =
          hits_from-Here reverse_cp932 file (scope file) text offsets [] (select test places)
            (All-select test places) in
        rw wide
          (All-map (Here file (scope file)) (Somewhere file) _ (Here-Somewhere file) all, others)
  ]

  content_hits-Here :
      (file : String) (content : Option Content)
      → Both
          (Somewhere file)
          (Here file (scope file))
          (content_hits fnmatchcase reverse_cp932 options (scope file) file content)
  content_hits-Here file none = (tt, tt)
  content_hits-Here file (some content) =
      elim (Bool-cases (not (has_source_extension file source_extensions) && content.has_nul)) [
        | inl binary ↦ rw binary (tt, tt)
        | inr other ↦ elim (Option-cases content.decoded) [
          | inl invalid ↦ rw (other, invalid) (((refl, refl), tt), tt)
          | inr (text, decoded) ↦ rw (other, decoded) (text_hits-Here file text)
        ]
      ]

  kept-Both :
      (file : String) (hits : Hits)
      → Both (Somewhere file) (Here file (scope file)) hits
      → Both IsConfirmed IsUnconfirmed (kept fnmatchcase reverse_cp932 options file hits)
  kept-Both file (confirmed, unconfirmed) (all, others) = (
    elim (Bool-cases (excluded file && options.exclude_confirmed)) [
      | inl out ↦ rw out tt
      | inr stays ↦ rw stays (
          All-map (Somewhere file) IsConfirmed confirmed
            (λ hit (e, within). (
              ap (λ f. excluded f && options.exclude_confirmed) e ∙ stays,
              ap (λ f. hit.character == "invalid UTF-8" || in_scope (scope f) hit.line) e ∙ within,
            ))
            all)
    ],
    elim (Bool-cases (excluded file && options.exclude_unconfirmed)) [
      | inl out ↦ rw out tt
      | inr stays ↦ rw stays (
          All-map (Here file (scope file)) IsUnconfirmed unconfirmed
            (λ hit (e, within). (
              ap (λ f. excluded f && options.exclude_unconfirmed) e ∙ stays,
              ap (λ f. in_scope (scope f) hit.line) e ∙ within,
            ))
            others)
    ],
  )

  file_hits-Both :
      (read : String → Option Content) (file : String)
      → Both IsConfirmed IsUnconfirmed
          (file_hits fnmatchcase reverse_cp932 options read changed whole file)
  unfolding file_hits
  file_hits-Both read file =
      elim (Bool-cases (not (is_wanted fnmatchcase reverse_cp932 options file))) [
        | inl unwanted ↦ rw unwanted (tt, tt)
        | inr wanted ↦
            elim (Bool-cases
              (excluded file && options.exclude_confirmed && options.exclude_unconfirmed)) [
                | inl out ↦ rw (wanted, out) (tt, tt)
                | inr stays ↦
                    rw (wanted, stays) (kept-Both file _ (content_hits-Here file (read file)))
              ]
      ]

  joined-Both :
      (hits more : Hits)
      → Both IsConfirmed IsUnconfirmed hits
      → Both IsConfirmed IsUnconfirmed more
      → Both IsConfirmed IsUnconfirmed (hits.0 ++ more.0, hits.1 ++ more.1)
  joined-Both (confirmed, unconfirmed) (more, others) (a, b) (c, d) =
      (All-append IsConfirmed confirmed more a c, All-append IsUnconfirmed unconfirmed others b d)

  -- No hit is reported of a class that is excluded for its file, and where files are restricted to their changed
  -- lines, each hit is on such a line, unless it is that the file is no UTF-8.
  pub scan_mojibake-IsConfirmed :
      (read : String → Option Content) (files : List String)
      → All IsConfirmed (scan_mojibake fnmatchcase reverse_cp932 options read changed whole files).0
        × All IsUnconfirmed
            (scan_mojibake fnmatchcase reverse_cp932 options read changed whole files).1
  unfolding scan_mojibake
  scan_mojibake-IsConfirmed read [] = (tt, tt)
  scan_mojibake-IsConfirmed read (file ∷ files) =
      joined-Both (file_hits fnmatchcase reverse_cp932 options read changed whole file)
        (scan_mojibake fnmatchcase reverse_cp932 options read changed whole files)
        (file_hits-Both read file) (scan_mojibake-IsConfirmed read files)
