-- ===== src/Encoding/Once.antt =====
-- About `confirmed_mojibake_hits` of encoding/detect.py.
use issuekit.Prelude.{
  ℕ, ◌+◌, String, Bool, true, Option, none, some, List, [], ◌∷◌, if◌then◌else◌, any, select, length,
  ◌≡◌, refl, ap, ◌∙◌, arith, inl, inr, Bool-cases,
}
use issuekit.Encoding.Window.{
  non_ascii_window, slice, Hit, mojibake_hit, same_window, confirmed_recovery, add_hit, hits_from,
  confirmed_mojibake_hits,
}

-- The hits of a window.
abbrev pub of_window : String → ℕ × ℕ → List Hit → ℕ
of_window text w hits =
    length (select (λ (hit : Hit). same_window w (non_ascii_window text hit.index)) hits)

abbrev pub hits_of : String → ℕ × ℕ → List Hit × List Hit → ℕ
hits_of text w (confirmed, unconfirmed) = of_window text w confirmed + of_window text w unconfirmed

abbrev pub has_place : String → ℕ × ℕ → List (ℕ × String) → Bool
has_place text w artifacts =
    any (λ (artifact : ℕ × String). same_window w (non_ascii_window text artifact.0)) artifacts

any-same :
    (w v : ℕ × ℕ) (checked : List (ℕ × ℕ))
    → same_window w v ≡ true
    → any (same_window w) checked ≡ any (same_window v) checked
any-same (a, b) (c, d) [] h = refl
any-same (a, b) (c, d) ((e, f) ∷ checked) h = ground (arith, any-same (a, b) (c, d) checked h)

hits_of-add :
    (reverse_cp932 : String → Option String) (text : String) (w : ℕ × ℕ) (hit : Hit)
    (recovered : Option String) (hits : List Hit × List Hit)
    → hits_of text w (add_hit reverse_cp932 hit recovered hits)
      ≡ (if same_window w (non_ascii_window text hit.index) then 1 else 0) + hits_of text w hits
hits_of-add reverse_cp932 text w hit none (confirmed, unconfirmed) = ground arith
hits_of-add reverse_cp932 text w hit (some recovered) (confirmed, unconfirmed) = ground arith

module _ (reverse_cp932 : String → Option String) (file text : String) (offsets : List ℕ)
    (w : ℕ × ℕ) where
  hits_from-once :
      (checked : List (ℕ × ℕ)) (artifacts : List (ℕ × String))
      → hits_of text w (hits_from reverse_cp932 file text offsets checked artifacts)
        ≡ (if any (same_window w) checked then 0 else if has_place text w artifacts then 1 else 0)
  unfolding hits_from mojibake_hit
  hits_from-once checked [] = ground arith
  hits_from-once checked ((index, character) ∷ artifacts) =
      let window = non_ascii_window text index in
      elim (Bool-cases (any (same_window window) checked)) [
        | inl old ↦ rw old (
            hits_from-once checked artifacts ∙ elim (Bool-cases (same_window w window)) [
              | inl this ↦
                  let listed = any-same w window checked this ∙ old in rw (this, listed) refl
              | inr other ↦ rw other refl
            ])
        | inr new ↦ rw new (
            hits_of-add reverse_cp932 text w (mojibake_hit file offsets index character)
              (confirmed_recovery reverse_cp932 (slice window text))
              (hits_from reverse_cp932 file text offsets (window ∷ checked) artifacts)
            ∙ ap (λ n. (if same_window w window then 1 else 0) + n)
                (hits_from-once (window ∷ checked) artifacts)
            ∙ elim (Bool-cases (same_window w window)) [
              | inl this ↦
                  let unlisted = any-same w window checked this ∙ new in
                  rw (this, unlisted) (omega arith)
              | inr other ↦ rw other (omega arith)
            ])
      ]

-- Each window that has a place of an artifact has just one hit, confirmed or unconfirmed, and no other window has.
pub confirmed_mojibake_hits-once :
    (reverse_cp932 : String → Option String) (file text : String) (artifacts : List (ℕ × String))
    (offsets : List ℕ) (w : ℕ × ℕ)
    → hits_of text w (confirmed_mojibake_hits reverse_cp932 file text artifacts offsets)
      ≡ (if has_place text w artifacts then 1 else 0)
unfolding confirmed_mojibake_hits
confirmed_mojibake_hits-once reverse_cp932 file text artifacts offsets w =
    hits_from-once reverse_cp932 file text offsets w [] artifacts
