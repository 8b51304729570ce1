-- ===== src/Core/WorkerKey/Laws.antt =====
-- When worker keys match.
use Prim.Native.String.{[], ◌∷◌, ◌++◌}
use text.Mathlib.TextLemmas.{
  append_assoc, cons-append, nil-append, append-ne-nil_of_right_ne-nil, append-eq-nil_iff,
}
use issuekit.Prelude.{
  String, ◌≡◌, refl, ◌≢◌, Bool, false, not, ◌&&◌, Option, none, some, arith, eq_iff, ◌==◌,
}
use issuekit.Prelude.Text.{
  strip, rcut, has_char, rcut-append, rcut-none, strip-append, rstrip-append, has_char-append,
  eq_comm,
}
use issuekit.Core.Token.{
  IsToken, token_matches, token-no_dot, token-no_at, token-ne-nil, token-rstrip, head-not_space,
}
use issuekit.Core.WorkerKey.{
  WorkerKeyParts, or_none, both_differ, match_found, worker_key, qualified_worker_key,
  unsuffixed_parts, worker_key_parts, worker_keys_match, worker_key_parts_match,
}

pub dot-cons : (s : String) → "." ++ s ≡ String.◌∷◌ "." s
dot-cons s = rw (cons-append, nil-append)

pub at-cons : (s : String) → "@" ++ s ≡ String.◌∷◌ "@" s
at-cons s = rw (cons-append, nil-append)

-- A key that begins with a token and ends in one is not changed by `strip`.
strip-tokens : (w s t : String) → IsToken w → IsToken t → strip (w ++ (s ++ t)) ≡ w ++ (s ++ t)
unfolding token_matches
strip-tokens [] s t hw ht = cc
strip-tokens (c ∷ w) s t hw ht =
    strip-append c w (s ++ t) (head-not_space 31 c w hw)
      (rstrip-append s t (token-rstrip 31 t ht) (token-ne-nil 31 t ht))
      (append-ne-nil_of_right_ne-nil s (token-ne-nil 31 t ht))

module _ (r w : String) (hr : IsToken r) (hw : IsToken w) where
  unsuffixed_parts-key :
      (m : String)
      → unsuffixed_parts (w ++ ("." ++ r)) m
        ≡ some (record { worker_name = w; repo_id = some r; machine_id = or_none m })
  unfolding unsuffixed_parts
  unsuffixed_parts-key m = rw (dot-cons r) (
      ground (
        arith,
        rcut-append b'.' "." w r refl (token-no_dot 31 r hr),
        eq_iff w "",
        eq_iff r "",
        token-ne-nil 31 r hr,
        token-ne-nil 31 w hw,
      ))

  pub key-no_at : has_char b'@' (w ++ ("." ++ r)) ≡ false
  unfolding has_char
  key-no_at = simp (has_char-append, dot-cons, token-no_at 31 w hw, token-no_at 31 r hr)

  key-ne-nil : w ++ ("." ++ r) ≢ ""
  key-ne-nil e = token-ne-nil 31 w hw (append-eq-nil_iff.0 e).0

  pub qualified-ne-nil : (m : String) → w ++ ("." ++ (r ++ ("@" ++ m))) ≢ ""
  qualified-ne-nil m e = token-ne-nil 31 w hw (append-eq-nil_iff.0 e).0

  pub stripped :
      (m : String)
      → IsToken m
      → strip (w ++ ("." ++ (r ++ ("@" ++ m)))) ≡ w ++ ("." ++ (r ++ ("@" ++ m)))
  stripped m hm =
      rw (← append_assoc "." r ("@" ++ m), ← append_assoc ("." ++ r) "@" m)
        (strip-tokens w (("." ++ r) ++ "@") m hw hm)

  split :
      (m : String)
      → IsToken m
      → rcut b'@' (w ++ ("." ++ (r ++ ("@" ++ m)))) ≡ some (w ++ ("." ++ r), m)
  split m hm =
      rw
        (
          at-cons m,
          ← append_assoc "." r (String.◌∷◌ "@" m),
          ← append_assoc w ("." ++ r) (String.◌∷◌ "@" m),
        )
        (rcut-append b'@' "@" (w ++ ("." ++ r)) m refl (token-no_at 31 m hm))

  worker_key_parts-worker_key :
      worker_key_parts (worker_key r w)
      ≡ some (record { worker_name = w; repo_id = some r; machine_id = none })
  unfolding worker_key_parts worker_key
  worker_key_parts-worker_key = ground (
    arith,
    strip-tokens w "." r hw hr,
    rcut-none b'@' (w ++ ("." ++ r)) key-no_at,
    unsuffixed_parts-key "",
    eq_iff (w ++ ("." ++ r)) "",
    key-ne-nil,
  )

  worker_key_parts-qualified :
      (m : String)
      → IsToken m
      → worker_key_parts (qualified_worker_key m r w)
        ≡ some (record { worker_name = w; repo_id = some r; machine_id = some m })
  unfolding worker_key_parts qualified_worker_key
  worker_key_parts-qualified m hm = ground (
    arith,
    append_assoc w "." (r ++ ("@" ++ m)),
    key-ne-nil,
    stripped m hm,
    split m hm,
    unsuffixed_parts-key m,
    eq_iff (w ++ ("." ++ r)) "",
    eq_iff m "",
    token-ne-nil 31 m hm,
    eq_iff (w ++ ("." ++ (r ++ ("@" ++ m)))) "",
    qualified-ne-nil m,
  )

-- The comparison of two keys built from tokens.
module _ (r w r' w' : String) (hr : IsToken r) (hw : IsToken w) (hr' : IsToken r')
    (hw' : IsToken w') where
  -- Two qualified keys made of valid tokens match just when worker, repository and machine are the
  -- same, with a directed target or without.
  pub worker_keys_match-qualified-qualified :
      (require : Bool) (m m' : String)
      → IsToken m
      → IsToken m'
      → worker_keys_match require (qualified_worker_key m r w) (qualified_worker_key m' r' w')
        ≡ (w == w' && r == r' && m == m')
  unfolding worker_keys_match worker_key_parts_match
  worker_keys_match-qualified-qualified require m m' hm hm' = ground (
    arith,
    worker_key_parts-qualified r w hr hw m hm,
    worker_key_parts-qualified r' w' hr' hw' m' hm',
    token-ne-nil 31 r hr,
    token-ne-nil 31 m hm,
    token-ne-nil 31 r' hr',
    token-ne-nil 31 m' hm',
    eq_iff r "",
    eq_iff m "",
    eq_iff r' "",
    eq_iff m' "",
    eq_iff w w',
    eq_iff r r',
    eq_iff m m',
    eq_iff (qualified_worker_key m r w) (qualified_worker_key m' r' w'),
  )

  -- A qualified key made of valid tokens matches a key with no machine just when worker and repository
  -- are the same and the target need not name its machine.
  pub worker_keys_match-qualified-bare :
      (require : Bool) (m : String)
      → IsToken m
      → worker_keys_match require (qualified_worker_key m r w) (worker_key r' w')
        ≡ (w == w' && r == r' && not require)
  unfolding worker_keys_match worker_key_parts_match
  worker_keys_match-qualified-bare require m hm = ground (
    arith,
    worker_key_parts-qualified r w hr hw m hm,
    worker_key_parts-worker_key r' w' hr' hw',
    token-ne-nil 31 r hr,
    token-ne-nil 31 m hm,
    token-ne-nil 31 r' hr',
    eq_iff r "",
    eq_iff m "",
    eq_iff r' "",
    eq_iff w w',
    eq_iff r r',
    eq_iff (qualified_worker_key m r w) (worker_key r' w'),
  )

both_differ_comm : (a b : Option String) → both_differ a b ≡ both_differ b a
both_differ_comm none none = refl
both_differ_comm none (some b) = refl
both_differ_comm (some a) none = refl
both_differ_comm (some a) (some b) = ground (arith, eq_comm a b)

match_found_comm : (a b : Option WorkerKeyParts) → match_found false a b ≡ match_found false b a
unfolding worker_key_parts_match
match_found_comm none none = refl
match_found_comm none (some b) = refl
match_found_comm (some a) none = refl
match_found_comm (some a) (some b) = rw (
  both_differ_comm a.repo_id b.repo_id,
  both_differ_comm a.machine_id b.machine_id,
  eq_comm a.worker_name b.worker_name,
)

-- Without a directed target the comparison is symmetric, whatever the two texts are.
pub worker_keys_match_comm :
    (left right : String) → worker_keys_match false left right ≡ worker_keys_match false right left
unfolding worker_keys_match
worker_keys_match_comm left right =
    rw (eq_comm left right, match_found_comm (worker_key_parts left) (worker_key_parts right))
