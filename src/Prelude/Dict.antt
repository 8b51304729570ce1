-- ===== src/Prelude/Dict.antt =====
-- Python's `dict` in insertion order, as an association list with a key test.
use Prim.Native.String.{String}
use mathlib.Core.Path.{◌≡◌, refl}
use mathlib.Core.Option.{Option, none, some}
use mathlib.Core.List.{List, [], ◌∷◌}
use native.Mathlib.Omega.{arith}
use text.Mathlib.Text.{◌==◌}
use text.Mathlib.TextEquality.{eq_iff}
use text.Mathlib.TextPositions.{eq_refl}
use issuekit.Prelude.Tests.{if◌then◌else◌}

module _ {ℓ} {V : Type ℓ} where
  -- `d.get(k)`
  unfoldable pub get : String → List (String × V) → Option V
  get k [] = none
  get k ((j, v) ∷ d) = if j == k then some v else get k d

  -- `d[k] = v`: an old key keeps its place
  unfoldable pub put : String → V → List (String × V) → List (String × V)
  put k v [] = (k, v) ∷ []
  put k v ((j, w) ∷ d) = if j == k then (j, v) ∷ d else (j, w) ∷ put k v d

  -- `d.pop(k, None)`
  unfoldable pub pop : String → List (String × V) → List (String × V)
  pop k [] = []
  pop k ((j, w) ∷ d) = let rest = pop k d in if j == k then rest else (j, w) ∷ rest

  pub get-put :
      (k j : String) (v : V) (d : List (String × V))
      → get j (put k v d) ≡ (if k == j then some v else get j d)
  unfolding get put
  get-put k j v [] = refl
  get-put k j v ((i, w) ∷ d) = ground (arith, eq_iff k j, eq_iff i k, eq_iff i j, get-put k j v d)

  pub get-pop :
      (k j : String) (d : List (String × V)) → get j (pop k d) ≡ (if k == j then none else get j d)
  unfolding get pop
  get-pop k j [] = ground arith
  get-pop k j ((i, w) ∷ d) = ground (arith, eq_iff k j, eq_iff i k, eq_iff i j, get-pop k j d)

  pub get-put_self : (k : String) (v : V) (d : List (String × V)) → get k (put k v d) ≡ some v
  get-put_self k v d = simp (get-put, eq_refl)
