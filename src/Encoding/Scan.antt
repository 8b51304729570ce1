-- ===== src/Encoding/Scan.antt =====
-- encoding/scan.py: the scan of files for mojibake, with the places of encoding/detect.py. What a file holds
-- is a parameter, with its decoding as UTF-8.
use Prim.Native.Char.{code}
use issuekit.Prelude.{
  ℕ, suc, String, Bool, true, not, ◌||◌, ◌&&◌, Option, none, some, List, [], ◌∷◌, ◌++◌,
  if◌then◌else◌, ◌==◌, any, eqb, leb, select, is_empty,
}
use issuekit.Prelude.Text.{rcut, lowers_to, has_non_ascii}
use issuekit.Encoding.Lines.{newline_offsets, line_number_at}
use issuekit.Encoding.Paths.{is_encoding_excluded_path}
use issuekit.Encoding.Window.{Hit, confirmed_mojibake_hits}

abbrev cp932_leads : List ℕ
cp932_leads =
    25160 ∷ 28662 ∷ 32349 ∷ 33653 ∷ 33696 ∷ 33704 ∷ 33771 ∷ 33780 ∷ 33811 ∷ 34523 ∷ 34527 ∷ 34543
    ∷ 34553 ∷ 34555 ∷ 34560 ∷ 34566 ∷ 34569 ∷ 34570 ∷ 34573 ∷ 34578 ∷ 34586 ∷ 34597 ∷ 34601 ∷ 34612
    ∷ 34615 ∷ 34619 ∷ 34623 ∷ 34636 ∷ 34638 ∷ 34643 ∷ 34647 ∷ 34649 ∷ 34655 ∷ 34656 ∷ 34659 ∷ 34664
    ∷ 34666 ∷ 34670 ∷ 34676 ∷ 34680 ∷ 34690 ∷ 34719 ∷ 34722 ∷ 34731 ∷ 34735 ∷ 34747 ∷ 34749 ∷ 34752
    ∷ 34756 ∷ 34758 ∷ 34759 ∷ 34763 ∷ 34768 ∷ 34770 ∷ 34784 ∷ 34799 ∷ 34802 ∷ 34806 ∷ 34807 ∷ 34814
    ∷ 34821 ∷ 34829 ∷ 34830 ∷ 34831 ∷ 34833 ∷ 34837 ∷ 34838 ∷ 34850 ∷ 35149 ∷ 35547 ∷ 35550 ∷ 35552
    ∷ 35553 ∷ 35554 ∷ 35556 ∷ 35569 ∷ 35575 ∷ 35591 ∷ 35596 ∷ 35600 ∷ 35604 ∷ 35606 ∷ 35607 ∷ 35610
    ∷ 35616 ∷ 35622 ∷ 35624 ∷ 35627 ∷ 35635 ∷ 35646 ∷ 35657 ∷ 35660 ∷ 35662 ∷ 35663 ∷ 35670 ∷ 35674
    ∷ 35675 ∷ 35679 ∷ 35691 ∷ 35692 ∷ 35695 ∷ 35700 ∷ 35709 ∷ 35712 ∷ 35724 ∷ 35726 ∷ 35730 ∷ 35731
    ∷ 35734 ∷ 35737 ∷ 35738 ∷ 35898 ∷ 35903 ∷ 35905 ∷ 35912 ∷ 35916 ∷ 35918 ∷ 35920 ∷ 35925 ∷ 35938
    ∷ 35948 ∷ 35960 ∷ 35962 ∷ 35964 ∷ 35970 ∷ 35973 ∷ 35977 ∷ 35978 ∷ 35981 ∷ 35982 ∷ 35988 ∷ 36706
    ∷ 36707 ∷ 36708 ∷ 36764 ∷ 36767 ∷ 36771 ∷ 36781 ∷ 36783 ∷ 36791 ∷ 36826 ∷ 36834 ∷ 36837 ∷ 36842
    ∷ 36847 ∷ 36852 ∷ 36856 ∷ 36857 ∷ 36858 ∷ 36869 ∷ 36875 ∷ 36877 ∷ 36878 ∷ 36881 ∷ 36885 ∷ 36886
    ∷ 36894 ∷ 36897 ∷ 36903 ∷ 36917 ∷ 36918 ∷ 36921 ∷ 36926 ∷ 36937 ∷ 36943 ∷ 36944 ∷ 36945 ∷ 36946
    ∷ 36950 ∷ 36952 ∷ 36958 ∷ 36968 ∷ 36975 ∷ 36978 ∷ 36982 ∷ 36989 ∷ 36992 ∷ 36993 ∷ 36994 ∷ 36999
    ∷ 37001 ∷ 37002 ∷ 37007 ∷ 37032 ∷ 37039 ∷ 37041 ∷ 37045 ∷ 37083 ∷ 37092 ∷ 37122 ∷ 37138 ∷ 37145
    ∷ 38304 ∷ 38311 ∷ 38312 ∷ 38317 ∷ 38329 ∷ 38331 ∷ 38332 ∷ 38334 ∷ 38339 ∷ 38346 ∷ 38348 ∷ 38349
    ∷ 38356 ∷ 38357 ∷ 38358 ∷ 38364 ∷ 38369 ∷ 38370 ∷ 38373 ∷ 38433 ∷ 38440 ∷ 38446 ∷ 38447 ∷ 38466
    ∷ 38475 ∷ 38476 ∷ 38479 ∷ 38492 ∷ 38493 ∷ 38494 ∷ 38495 ∷ 38502 ∷ 38508 ∷ 38514 ∷ 38519 ∷ 38541
    ∷ 38549 ∷ 38551 ∷ 38552 ∷ 38567 ∷ 38568 ∷ 38570 ∷ 38576 ∷ 38577 ∷ 38578 ∷ 38580 ∷ 38582 ∷ 38584
    ∷ 38585 ∷ 38601 ∷ 38603 ∷ 38605 ∷ 38606 ∷ 38613 ∷ 38614 ∷ 38620 ∷ 38649 ∷ 38660 ∷ 38662 ∷ 38664
    ∷ 38669 ∷ 38670 ∷ 38673 ∷ 38675 ∷ 38827 ∷ 39486 ∷ 39501 ∷ 39509 ∷ 39511 ∷ 39515 ∷ 39519 ∷ 39522
    ∷ 39524 ∷ 39525 ∷ 39529 ∷ 39530 ∷ 39531 ∷ 39597 ∷ 39600 ∷ 39612 ∷ 39616 ∷ 39631 ∷ 39633 ∷ 39635
    ∷ 39636 ∷ 39646 ∷ 39647 ∷ 39651 ∷ 39654 ∷ 39659 ∷ 39662 ∷ 39663 ∷ 39665 ∷ 39668 ∷ 39671 ∷ 39675
    ∷ 39686 ∷ 39704 ∷ 39706 ∷ 39711 ∷ 39714 ∷ 39715 ∷ 39717 ∷ 39719 ∷ 39720 ∷ 39721 ∷ 39722 ∷ 39726
    ∷ 39727 ∷ 39730 ∷ 39747 ∷ 39748 ∷ 39757 ∷ 39758 ∷ 39759 ∷ 39761 ∷ 39768 ∷ 39796 ∷ 39811 ∷ 39825
    ∷ 39827 ∷ 39830 ∷ 39831 ∷ 39839 ∷ 39840 ∷ 39848 ∷ 39860 ∷ []

abbrev artifacts : List ℕ
artifacts =
    32359 ∷ 32314 ∷ 35649 ∷ 33651 ∷ 33673 ∷ 34739 ∷ 34563 ∷ 34568 ∷ 34577 ∷ 37090 ∷ 38434 ∷ 39650
    ∷ 65533 ∷ []

abbrev is_between : ℕ → ℕ → ℕ → Bool
is_between low high c = leb low c && leb c high

unfoldable pub is_artifact : Bool → ℕ → Bool
is_artifact include_halfwidth_katakana c =
    is_between 128 159 c
    || is_between 57344 63743 c
    || any (eqb c) artifacts
    || any (eqb c) cp932_leads
    || (include_halfwidth_katakana && is_between 65377 65439 c)

-- The places from this index on; each pattern matches one character.
unfoldable pub artifacts_from : Bool → ℕ → String → List (ℕ × String)
artifacts_from include index String.[] = []
artifacts_from include index (String.◌∷◌ c s) =
    let rest = artifacts_from include (suc index) s in
    if is_artifact include (code c) then (index, String.◌∷◌ c "") ∷ rest else rest

abbrev pub find_encoding_artifacts : Bool → String → List (ℕ × String)
find_encoding_artifacts include text = artifacts_from include 0 text

abbrev last_part : String → String
last_part file = elim (rcut b'/' file) [ none ↦ file | some (folder, name) ↦ name ]

-- `Path(file).suffix`, without its dot
unfoldable pub suffix : String → String
suffix file = elim (rcut b'.' (last_part file)) [
  | none ↦ ""
  | some (stem, extension) ↦ if is_empty stem then "" else extension
]

-- The extensions are of ASCII, without `k`.
unfoldable pub has_source_extension : String → List String → Bool
has_source_extension file extensions =
    not (is_empty (suffix file)) && any (lowers_to (suffix file)) extensions

abbrev pub source_extensions : List String
source_extensions =
    "ts" ∷ "tsx" ∷ "js" ∷ "jsx" ∷ "mjs" ∷ "cjs" ∷ "json" ∷ "md" ∷ "mdx" ∷ "css" ∷ "scss" ∷ "html"
    ∷ "yml" ∷ "yaml" ∷ "py" ∷ "toml" ∷ "cfg" ∷ "ini" ∷ "txt" ∷ []

-- The sets of hit classes are given by what is in them, and the line scope by whether it is the changed lines.
pub record MojibakeScanOptions : Type 0 where
  pub fail_confirmed : Bool
  pub fail_unconfirmed : Bool
  pub include_halfwidth_katakana : Bool
  pub extensions : Option (List String)
  pub only_changed_lines : Bool
  pub exclude_patterns : List String
  pub exclude_confirmed : Bool
  pub exclude_unconfirmed : Bool

-- Whether a zero byte is near the start, and the text, if the bytes are UTF-8.
pub record Content : Type 0 where
  pub has_nul : Bool
  pub decoded : Option String

abbrev pub Hits : Type 0
Hits = List Hit × List Hit

abbrev pub invalid_utf8_hit : String → Hit
invalid_utf8_hit file = record {
  file = file;
  line = 1;
  column = 1;
  index = 0;
  character = "invalid UTF-8";
  recovered = some "not applicable";
}

abbrev pub is_listed : ℕ → List ℕ → Bool
is_listed n numbers = any (eqb n) numbers

abbrev pub in_scope : Option (List ℕ) → ℕ → Bool
in_scope none line = true
in_scope (some lines) line = is_listed line lines

module _ (fnmatchcase : String → String → Bool) (reverse_cp932 : String → Option String)
    (options : MojibakeScanOptions) where
  abbrev pub is_excluded : String → Bool
  is_excluded file = is_encoding_excluded_path fnmatchcase file options.exclude_patterns

  -- The changed lines that a file is restricted to, if it is.
  abbrev pub scope_of : Option (String → List ℕ) → List String → String → Option (List ℕ)
  scope_of none whole file = none
  scope_of (some changed) whole file =
      if options.only_changed_lines && not (any (λ w. w == file) whole)
      then some (changed file)
      else none

  -- The hits of the classes that are not excluded.
  abbrev pub kept : String → Hits → Hits
  kept file (confirmed, unconfirmed) = (
    if is_excluded file && options.exclude_confirmed then [] else confirmed,
    if is_excluded file && options.exclude_unconfirmed then [] else unconfirmed,
  )

  unfoldable pub text_hits : Option (List ℕ) → String → String → Hits
  text_hits scope file text =
      let offsets = newline_offsets text in
      let places =
        select (λ (place : ℕ × String). in_scope scope (line_number_at offsets place.0))
          (find_encoding_artifacts options.include_halfwidth_katakana text) in
      if has_non_ascii text
      then confirmed_mojibake_hits reverse_cp932 file text places offsets
      else ([], [])

  abbrev pub is_wanted : String → Bool
  is_wanted file = elim options.extensions [
    | none ↦ true
    | some extensions ↦ has_source_extension file extensions
  ]

  abbrev pub content_hits : Option (List ℕ) → String → Option Content → Hits
  content_hits scope file none = ([], [])
  content_hits scope file (some content) =
      if not (has_source_extension file source_extensions) && content.has_nul
      then ([], [])
      else elim content.decoded [
        | none ↦ (invalid_utf8_hit file ∷ [], [])
        | some text ↦ text_hits scope file text
      ]

  unfoldable pub file_hits :
      (String → Option Content) → Option (String → List ℕ) → List String → String → Hits
  file_hits read changed whole file =
      if not (is_wanted file)
      then ([], [])
      else if is_excluded file && options.exclude_confirmed && options.exclude_unconfirmed
      then ([], [])
      else kept file (content_hits (scope_of changed whole file) file (read file))

  unfoldable pub scan_mojibake :
      (String → Option Content) → Option (String → List ℕ) → List String → List String → Hits
  scan_mojibake read changed whole [] = ([], [])
  scan_mojibake read changed whole (file ∷ files) =
      let (confirmed, unconfirmed) = file_hits read changed whole file in
      let (more, others) = scan_mojibake read changed whole files in
      (confirmed ++ more, unconfirmed ++ others)

  -- `MojibakeScanResult.failed`
  unfoldable pub failed : Hits → Bool
  failed (confirmed, unconfirmed) =
      (options.fail_confirmed && any (λ hit. true) confirmed)
      || (options.fail_unconfirmed && any (λ hit. true) unconfirmed)
