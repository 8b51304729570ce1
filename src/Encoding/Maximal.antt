-- ===== src/Encoding/Maximal.antt =====
-- About `_non_ascii_window` of encoding/detect.py.
use issuekit.Prelude.{
  ℕ, zero, suc, ◌+◌, ◌<◌, ◌≤◌, String, true, false, not, ◌||◌, ◌&&◌, eqb, leb, ltb, ◌≡◌, refl, ap,
  ◌∙◌, arith, inl, inr, Bool-cases,
}
use issuekit.Encoding.Lines.{text_length}
use issuekit.Encoding.Window.{char_at, wide_at, window_start, window_end, non_ascii_window}

-- A character of the window is not ASCII, and the window cannot be made longer on either side.
pub record IsWindow (text : String) (index m : ℕ) (window : ℕ × ℕ) : Type 0 where
  pub starts : window.0 ≤ index
  pub ends : index < window.1
  pub wide : (not (leb window.0 m && ltb m window.1) || wide_at text m) ≡ true
  pub left : (not (eqb (suc m) window.0) || not (wide_at text m)) ≡ true
  pub right : wide_at text window.1 ≡ false

module _ (text : String) (m : ℕ) where
  window_start-run :
      (index : ℕ)
      → (window_start text index ≤ index)
        × ((not (leb (window_start text index) m && ltb m index) || wide_at text m) ≡ true)
        × ((not (eqb (suc m) (window_start text index)) || not (wide_at text m)) ≡ true)
  unfolding window_start
  window_start-run zero = (omega arith, ground arith, ground arith)
  window_start-run (suc index) = elim (Bool-cases (wide_at text index)) [
    | inl more ↦
        let (le, run, stop) = window_start-run index in
        rw more (
          omega arith,
          elim (Bool-cases (eqb m index)) [
            | inl this ↦
                let e : m ≡ index = ground arith in
                let wide : wide_at text m ≡ true = ap (wide_at text) e ∙ more in
                rw wide (ground arith)
            | inr other ↦ ground (arith, run)
          ],
          stop,
        )
    | inr done ↦ rw done (
      omega arith,
      ground arith,
      elim (Bool-cases (eqb m index)) [
        | inl this ↦
            let e : m ≡ index = ground arith in
            let narrow : wide_at text m ≡ false = ap (wide_at text) e ∙ done in
            rw narrow (ground arith)
        | inr other ↦ ground arith
      ],
    )
  ]

char_at-end : (text : String) (n : ℕ) → text_length text ≤ n → wide_at text n ≡ false
unfolding char_at text_length
char_at-end String.[] n le = refl
char_at-end (String.◌∷◌ c s) zero le = absurd (omega arith)
char_at-end (String.◌∷◌ c s) (suc n) le = char_at-end s n (omega arith)

module _ (text : String) (m : ℕ) where
  window_end-run :
      (fuel end : ℕ)
      → text_length text ≤ end + fuel
      → (end ≤ window_end fuel text end)
        × ((not (leb end m && ltb m (window_end fuel text end)) || wide_at text m) ≡ true)
        × (wide_at text (window_end fuel text end) ≡ false)
  unfolding window_end
  window_end-run zero end enough = (omega arith, ground arith, char_at-end text end (omega arith))
  window_end-run (suc fuel) end enough = elim (Bool-cases (wide_at text end)) [
    | inl more ↦
        let (le, run, stop) = window_end-run fuel (suc end) (omega arith) in
        rw more (
          omega arith,
          elim (Bool-cases (eqb m end)) [
            | inl this ↦
                let e : m ≡ end = ground arith in
                let wide : wide_at text m ≡ true = ap (wide_at text) e ∙ more in
                rw wide (ground arith)
            | inr other ↦ ground (arith, run)
          ],
          stop,
        )
    | inr done ↦ rw done (omega arith, ground arith, done)
  ]

-- Around a character that is not ASCII, the window holds such characters only and ends at others on both
-- sides.
pub non_ascii_window-IsWindow :
    (text : String) (index m : ℕ)
    → wide_at text index ≡ true
    → IsWindow text index m (non_ascii_window text index)
unfolding non_ascii_window
non_ascii_window-IsWindow text index m here =
    let (low, before, left) = window_start-run text m index in
    let (high, behind, right) =
      window_end-run text m (text_length text) (suc index) (omega arith) in
    record {
      starts = low;
      ends = omega arith;
      wide = elim (Bool-cases (eqb m index)) [
        | inl this ↦
            let e : m ≡ index = ground arith in
            let wide : wide_at text m ≡ true = ap (wide_at text) e ∙ here in rw wide (ground arith)
        | inr other ↦ ground (arith, before, behind)
      ];
      left = left;
      right = right;
    }
