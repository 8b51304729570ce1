-- ===== src/Requests/Prepared.antt =====
-- About commands/request/routing.py: the saved targets of an accepted routing.
use Prim.Native.String
use text.Mathlib.TextLemmas.{cons-append, nil-append}
use issuekit.Prelude.{
  ℕ, zero, suc, ◌+◌, String, ◌≡◌, refl, Bool, true, not, none, some, List, [], ◌∷◌, ◌==◌, is_empty,
  All, select, is_some, bind_ok, ◌>>=◌, arith, ap, sym, ◌∙◌, inl, inr, Bool-cases, Option-cases, ok,
}
use issuekit.Prelude.Text.{cut, strip}
use issuekit.Prelude.Decimal.{show, read-show}
use mathlib.Core.Path.{subst}
use issuekit.Agents.Router.Numbers.{is_number-show}
use issuekit.Agents.Router.Routed.{IsReference, AreTargets}
use issuekit.Config.{has}
use issuekit.Requests.State.{Target, target_state, target_depends_on}
use issuekit.Requests.Routing.{
  target_at, project_index, saved_indexes, routed_indexes, route_target_indexes, nth,
  saved_target_reference, saved_references, new_targets, prepared_targets,
}
use issuekit.Requests.Routing.Delivery.{depends_at}
use issuekit.Requests.Routing.Delivered.{Earlier, Before}
use issuekit.Agents.Router.{placeholder_index, after_kind, RouteTarget}

target-cut : (s : String) → cut b':' (String.◌++◌ "target:" s) ≡ some ("target", s)
unfolding cut
target-cut s =
    rw
      (
        cons-append, cons-append, cons-append, cons-append, cons-append, cons-append, cons-append,
        nil-append,
      )
      refl

placeholder_index-show : (n : ℕ) → placeholder_index (String.◌++◌ "target:" (show n)) ≡ some n
unfolding placeholder_index after_kind
placeholder_index-show n =
    rw (target-cut (show n), placeholder_index) (rw (is_number-show n, read-show n) refl)

module _ (indexes : List ℕ) (same_index : (n i : ℕ) → nth n indexes ≡ some i → i ≡ n)
    (index : ℕ) where
  saved_target_reference-Before :
      (ref saved : String)
      → IsReference index ref
      → saved_target_reference indexes ref ≡ some saved
      → Before index saved
  unfolding saved_target_reference
  saved_target_reference-Before ref saved (IsReference.dependency plain is_ref) h =
      let same : some ref ≡ some saved = rw (plain, saved_target_reference) at h in
      let it : ref ≡ saved = cc in
      λ j placed. let bad : none ≡ some j = sym plain ∙ ap placeholder_index it ∙ placed in cc
  saved_target_reference-Before ref saved (IsReference.earlier n placed lt) h =
      elim (Option-cases (nth n indexes)) [
        | inl missing ↦
            let bad : none ≡ some saved = rw (placed, saved_target_reference, missing) at h in cc
        | inr (i, there) ↦
            let same : some (String.◌++◌ "target:" (show i)) ≡ some saved =
              rw (placed, saved_target_reference, there) at h in
            let it : String.◌++◌ "target:" (show i) ≡ saved = cc in
            λ j found.
              let both : some i ≡ some j =
                sym (placeholder_index-show i) ∙ ap placeholder_index it ∙ found in
              let e : i ≡ j = cc in let e' = same_index n i there in omega arith
      ]

  saved_references-Before :
      (refs saved : List String)
      → All (IsReference index) refs
      → saved_references indexes refs ≡ ok saved
      → All (Before index) saved
  unfolding saved_references
  saved_references-Before [] saved all h =
      subst (All (Before index)) (let e : [] ≡ saved = cc in e) tt
  saved_references-Before (ref ∷ refs) saved (one, all) h =
      elim (Option-cases (saved_target_reference indexes ref)) [
        | inl missing ↦ let bad = rw (missing, saved_references) at h in cc
        | inr (first, found) ↦
            let (rest, others, h) =
              bind_ok (saved_references indexes refs) (λ rest. ok (first ∷ rest))
                (rw (found, saved_references) at h) in
            let e : first ∷ rest ≡ saved = cc in
            subst (All (Before index)) e (
              saved_target_reference-Before ref first one found,
              saved_references-Before refs rest all others,
            )
      ]

-- The targets from the one with this index on depend only on earlier ones.
abbrev Chain : ℕ → List Target → Type 0
Chain k [] = Unit
Chain k (target ∷ targets) = All (Before k) (target_depends_on target) × Chain (suc k) targets

All-select :
    (P : String → Type 0) (test : String → Bool) (xs : List String)
    → All P xs
    → All P (select test xs)
All-select P test [] all = tt
All-select P test (x ∷ xs) (one, all) = elim (Bool-cases (test x)) [
  | inl kept ↦ rw kept (one, All-select P test xs all)
  | inr dropped ↦ rw dropped (All-select P test xs all)
]

new_targets-Chain :
    (indexes : List ℕ) (candidates : List String) (k : ℕ) (targets : List RouteTarget)
    (saved : List Target)
    → ((n i : ℕ) → nth n indexes ≡ some i → i ≡ n)
    → AreTargets candidates k targets
    → new_targets [] indexes targets ≡ ok saved
    → Chain k saved
unfolding new_targets target_depends_on target_state
new_targets-Chain indexes candidates k [] saved same_index are h =
    subst (Chain k) (let e : [] ≡ saved = cc in e) tt
new_targets-Chain indexes candidates k (target ∷ targets) saved same_index (one, are) h =
    let (depends_on, found, h) =
      bind_ok (saved_references indexes target.depends_on)
        (λ depends_on. new_targets [] indexes targets >>= λ rest.
          ok (target_state (record target { depends_on = depends_on }) ∷ rest))
        h in
    let (rest, others, h) =
      bind_ok (new_targets [] indexes targets)
        (λ rest. ok (target_state (record target { depends_on = depends_on }) ∷ rest)) h in
    let e : target_state (record target { depends_on = depends_on }) ∷ rest ≡ saved = cc in
    subst (Chain k) e (
      All-select (Before k) (λ ref. not (is_empty (strip ref))) depends_on
          (saved_references-Before indexes same_index k target.depends_on depends_on one.references
            found),
      new_targets-Chain indexes candidates (suc k) targets rest same_index are others,
    )

-- Without saved targets, the targets get the indexes in their order.
abbrev Known : List String → List (String × ℕ) → Type 0
Known seen indexes = (p : String) → is_some (project_index p indexes) ≡ true → has p seen ≡ true

abbrev count : ℕ → List RouteTarget → List ℕ
count next [] = []
count next (target ∷ targets) = next ∷ count (suc next) targets

nth-count :
    (next n i : ℕ) (targets : List RouteTarget) → nth n (count next targets) ≡ some i → i ≡ next + n
nth-count next n i [] h = cc
nth-count next zero i (t ∷ targets) h = let e : next ≡ i = cc in omega arith
nth-count next (suc n) i (t ∷ targets) h =
    let ih = nth-count (suc next) n i targets h in omega arith

Known-none : Known [] []
unfolding project_index
Known-none p h = cc

Known-cons :
    (seen : List String) (indexes : List (String × ℕ)) (project : String) (next : ℕ)
    → Known seen indexes
    → Known (project ∷ seen) ((project, next) ∷ indexes)
unfolding project_index has
Known-cons seen indexes project next known p h = elim (Bool-cases (project == p)) [
  | inl this ↦ rw this refl
  | inr other ↦ rw other (known p (rw (other, project_index) at h))
]

routed_indexes-count :
    (targets : List RouteTarget) (seen : List String) (next : ℕ) (indexes : List (String × ℕ))
    (found : List ℕ)
    → Known seen indexes
    → routed_indexes targets seen next indexes ≡ ok found
    → found ≡ count next targets
unfolding routed_indexes
routed_indexes-count [] seen next indexes found known h = let e : [] ≡ found = cc in sym e
routed_indexes-count (target ∷ targets) seen next indexes found known h =
    elim (Bool-cases (has target.project seen)) [
      | inl twice ↦ let bad = rw (twice, routed_indexes) at h in cc
      | inr once ↦ elim (Option-cases (project_index target.project indexes)) [
        | inr (n, there) ↦ let bad = known target.project (ap is_some there) in cc
        | inl fresh ↦
            let (rest, others, h) =
              bind_ok
                (routed_indexes targets (target.project ∷ seen) (suc next)
                  ((target.project, next) ∷ indexes))
                (λ rest. ok (next ∷ rest)) (rw (once, fresh, routed_indexes) at h) in
            let e : next ∷ rest ≡ found = cc in
            let ih =
              routed_indexes-count targets (target.project ∷ seen) (suc next)
                ((target.project, next) ∷ indexes) rest
                (Known-cons seen indexes target.project next known) others in
            sym e ∙ ap (λ l. next ∷ l) ih
      ]
    ]

Chain-at :
    (k n : ℕ) (targets : List Target) (depends_on : List String)
    → Chain k targets
    → depends_at n targets ≡ some depends_on
    → All (Before (k + n)) depends_on
unfolding target_at
Chain-at k n [] depends_on chain h = cc
Chain-at k zero (t ∷ targets) depends_on (one, chain) h =
    let e : target_depends_on t ≡ depends_on = cc in
    let i : k ≡ k + 0 = omega arith in
    subst (λ m. All (Before m) depends_on) i (subst (All (Before k)) e one)
Chain-at k (suc n) (t ∷ targets) depends_on (one, chain) h =
    let i : suc k + n ≡ k + suc n = omega arith in
    subst (λ m. All (Before m) depends_on) i (Chain-at (suc k) n targets depends_on chain h)

-- The targets that an accepted routing is saved as depend on earlier ones only.
pub prepared_targets-Earlier :
    (candidates : List String) (targets : List RouteTarget) (saved : List Target)
    → AreTargets candidates 0 targets
    → prepared_targets [] targets ≡ ok saved
    → Earlier saved
unfolding prepared_targets route_target_indexes saved_indexes
prepared_targets-Earlier candidates targets saved are h =
    let (indexes, numbered, h) =
      bind_ok (routed_indexes targets [] 0 [])
        (λ indexes. new_targets [] indexes targets >>= λ new. ok new) h in
    let (new, made, h) = bind_ok (new_targets [] indexes targets) (λ new. ok new) h in
    let e : new ≡ saved = cc in
    let in_order = routed_indexes-count targets [] 0 [] indexes Known-none numbered in
    let same_index = λ (n i : ℕ) (k : nth n indexes ≡ some i).
      (let e = nth-count 0 n i targets (ap (nth n) (sym in_order) ∙ k) in
        let it : i ≡ n = omega arith in it) in
    λ n depends_on k.
      let i : 0 + n ≡ n = omega arith in
      subst (λ m. All (Before m) depends_on) i
        (Chain-at 0 n saved depends_on
          (subst (Chain 0) e
            (new_targets-Chain indexes candidates 0 targets new same_index are made))
          k)
