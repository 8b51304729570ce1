-- ===== src/Agents/Router/Routed.antt =====
-- What holds of every routing that is accepted.
use mathlib.Core.Path.{subst}
use mathlib.Core.Logic.{◌≢◌}
use issuekit.Prelude.{
  ℕ, suc, ◌≤◌, ◌<◌, String, ◌≡◌, refl, true, false, not, inl, inr, Option, none, some, List, [],
  ◌∷◌, if◌then◌else◌, ◌==◌, is_empty, eqb, leb, length, Result, ok, err, parse_error, guard, All,
  arith, ap, sym, ◌∙◌, Bool-cases, Option-cases, eq_iff, bind_ok, guard_ok,
}
use issuekit.Prelude.Text.{strip}
use issuekit.Config.{has}
use issuekit.Agents.Json.{Json, Items, Members, get_key, require_nonempty_text}
use issuekit.Agents.Router.{
  RouteTarget, RouterDecision, is_dependency_ref, placeholder_index, check_reference,
  parse_references, without_repeats, parse_dependency_tuple, blocking_of, parse_target,
  parse_targets, count_items, route_decision, decide, decision_from_json,
}

-- A reference of the target with this index: a placeholder of an earlier target, or a dependency.
pub data IsReference (index : ℕ) (ref : String) : Type 0 where
  earlier : (j : ℕ) → placeholder_index ref ≡ some j → j < index → IsReference index ref
  dependency : placeholder_index ref ≡ none → is_dependency_ref ref ≡ true → IsReference index ref

pub record IsTarget (candidates : List String) (index : ℕ) (target : RouteTarget) : Type 0 where
  pub known : has target.project candidates ≡ true
  pub titled : is_empty target.title ≡ false
  pub written : is_empty target.body ≡ false
  pub references : All (IsReference index) target.depends_on

-- The targets of a routing, from the one with this index on.
abbrev pub AreTargets : List String → ℕ → List RouteTarget → Type 0
AreTargets candidates index [] = Unit
AreTargets candidates index (target ∷ targets) =
    IsTarget candidates index target × AreTargets candidates (suc index) targets

require_nonempty_text-ok :
    (value : Json) {s : String} → require_nonempty_text value ≡ ok s → is_empty s ≡ false
unfolding require_nonempty_text
require_nonempty_text-ok Json.null h = cc
require_nonempty_text-ok (Json.boolean b) h = cc
require_nonempty_text-ok (Json.number n) h = cc
require_nonempty_text-ok (Json.array items) h = cc
require_nonempty_text-ok (Json.object entries) h = cc
require_nonempty_text-ok (Json.text t) {s} h = elim (Bool-cases (is_empty (strip t))) [
  | inl blank ↦
      let bad : ◌≡◌ {A = Result String} (err parse_error) (ok s) = rw (blank, if◌then◌else◌) at h in
      cc
  | inr full ↦
      let good : ◌≡◌ {A = Result String} (ok (strip t)) (ok s) = rw (full, if◌then◌else◌) at h in
      let same : strip t ≡ s = cc in ap is_empty (sym same) ∙ full
]

check_reference-ok :
    (index : ℕ) (s : String) {ref : String}
    → check_reference index s ≡ ok ref
    → IsReference index ref
unfolding check_reference
check_reference-ok index s {ref} h = elim (Option-cases (placeholder_index s)) [
  | inr (j, placed) ↦ elim (Bool-cases (leb index j)) [
    | inl late ↦
        let bad : ◌≡◌ {A = Result String} (err parse_error) (ok ref) =
          rw (placed, late, check_reference) at h in
        cc
    | inr early ↦
        let good : ◌≡◌ {A = Result String} (ok s) (ok ref) =
          rw (placed, early, check_reference) at h in
        let same : s ≡ ref = cc in
        IsReference.earlier j (ap placeholder_index (sym same) ∙ placed) (ground arith)
  ]
  | inl other ↦ elim (Bool-cases (is_dependency_ref s)) [
    | inr no_ref ↦
        let bad : ◌≡◌ {A = Result String} (err parse_error) (ok ref) =
          rw (other, no_ref, check_reference) at h in
        cc
    | inl is_ref ↦
        let good : ◌≡◌ {A = Result String} (ok s) (ok ref) =
          rw (other, is_ref, check_reference) at h in
        let same : s ≡ ref = cc in
        IsReference.dependency (ap placeholder_index (sym same) ∙ other)
          (ap is_dependency_ref (sym same) ∙ is_ref)
  ]
]

module _ (index : ℕ) where
  parse_references-ok :
      (items : Items) {refs : List String}
      → parse_references index items ≡ ok refs
      → All (IsReference index) refs
  unfolding parse_references
  parse_references-ok Items.no_items {refs} h =
      subst (All (IsReference index)) (let e : [] ≡ refs = cc in e) tt
  parse_references-ok (Items.item raw rest) {refs} h =
      let (s, read, h) = bind_ok (require_nonempty_text raw) _ h in
      let (ref, checked, h) = bind_ok (check_reference index s) _ h in
      let (others, found, h) = bind_ok (parse_references index rest) _ h in
      let all : ref ∷ others ≡ refs = cc in
      subst (All (IsReference index)) all
        (check_reference-ok index s checked, parse_references-ok rest found)

  without_repeats-All :
      (P : String → Type 0) (seen refs : List String)
      → All P refs
      → All P (without_repeats seen refs)
  unfolding without_repeats
  without_repeats-All P seen [] all = tt
  without_repeats-All P seen (ref ∷ refs) (first, all) = elim (Bool-cases (has ref seen)) [
    | inl old ↦ rw old (without_repeats-All P seen refs all)
    | inr fresh ↦ rw fresh (first, without_repeats-All P (ref ∷ seen) refs all)
  ]

  parse_dependency_tuple-ok :
      (value : Json) {refs : List String}
      → parse_dependency_tuple value index ≡ ok refs
      → All (IsReference index) refs
  unfolding parse_dependency_tuple
  parse_dependency_tuple-ok Json.null {refs} h =
      subst (All (IsReference index)) (let e : [] ≡ refs = cc in e) tt
  parse_dependency_tuple-ok (Json.boolean b) h = cc
  parse_dependency_tuple-ok (Json.number n) h = cc
  parse_dependency_tuple-ok (Json.object entries) h = cc
  parse_dependency_tuple-ok (Json.text s) {refs} h =
      let (found, parsed, h) =
        bind_ok (parse_references index (Items.item (Json.text s) Items.no_items)) _ h in
      let same : without_repeats [] found ≡ refs = cc in
      subst (All (IsReference index)) same
        (without_repeats-All (IsReference index) [] found (parse_references-ok _ parsed))
  parse_dependency_tuple-ok (Json.array items) {refs} h =
      let (found, parsed, h) = bind_ok (parse_references index items) _ h in
      let same : without_repeats [] found ≡ refs = cc in
      subst (All (IsReference index)) same
        (without_repeats-All (IsReference index) [] found (parse_references-ok items parsed))

parse_target-ok :
    (candidates : List String) (index : ℕ) (raw : Json) {target : RouteTarget}
    → parse_target candidates index raw ≡ ok target
    → IsTarget candidates index target
unfolding parse_target
parse_target-ok candidates index Json.null h = cc
parse_target-ok candidates index (Json.boolean b) h = cc
parse_target-ok candidates index (Json.number n) h = cc
parse_target-ok candidates index (Json.text s) h = cc
parse_target-ok candidates index (Json.array items) h = cc
parse_target-ok candidates index (Json.object raw) {target} h =
    let (project, read, h) = bind_ok (require_nonempty_text (get_key "project" raw)) _ h in
    let (u, known, h) = bind_ok (guard (has project candidates) parse_error) _ h in
    let (title, titled, h) = bind_ok (require_nonempty_text (get_key "title" raw)) _ h in
    let (body, written, h) = bind_ok (require_nonempty_text (get_key "body" raw)) _ h in
    let (blocking, flag, h) = bind_ok (blocking_of raw) _ h in
    let (depends_on, parsed, h) =
      bind_ok (parse_dependency_tuple (get_key "depends_on" raw) index) _ h in
    let made : RouteTarget = record {
      project = project;
      title = title;
      body = body;
      blocking = blocking;
      depends_on = depends_on;
    } in
    let e : ◌≡◌ {A = Result RouteTarget} (ok made) (ok target) = h in
    let same : made ≡ target = cc in
    let holds : IsTarget candidates index made = record {
      known = guard_ok (has project candidates) parse_error known;
      titled = require_nonempty_text-ok (get_key "title" raw) titled;
      written = require_nonempty_text-ok (get_key "body" raw) written;
      references = parse_dependency_tuple-ok index (get_key "depends_on" raw) parsed;
    } in
    subst (IsTarget candidates index) same holds

parse_targets-ok :
    (candidates : List String) (index : ℕ) (items : Items) {targets : List RouteTarget}
    → parse_targets candidates index items ≡ ok targets
    → AreTargets candidates index targets × (length targets ≡ count_items items)
unfolding parse_targets count_items
parse_targets-ok candidates index Items.no_items {targets} h =
    let same : [] ≡ targets = cc in
    (subst (AreTargets candidates index) same tt, ap length (sym same))
parse_targets-ok candidates index (Items.item raw rest) {targets} h =
    let (target, parsed, h) = bind_ok (parse_target candidates index raw) _ h in
    let (others, found, h) = bind_ok (parse_targets candidates (suc index) rest) _ h in
    let same : target ∷ others ≡ targets = cc in
    let (are, count) = parse_targets-ok candidates (suc index) rest found in
    (
      subst (AreTargets candidates index) same (parse_target-ok candidates index raw parsed, are),
      ap length (sym same) ∙ ap suc count,
    )

-- What holds of a routing.
pub record IsRoute (candidates : List String) (max_targets : ℕ) (targets : List RouteTarget)
    : Type 0 where
  pub some_target : 0 < length targets
  pub bounded : length targets ≤ max_targets
  pub each : AreTargets candidates 0 targets

route_decision-ok :
    (candidates : List String) (max_targets : ℕ) (value : Json) {d : RouterDecision}
    → route_decision candidates max_targets value ≡ ok d
    → IsRoute candidates max_targets d.targets
unfolding route_decision
route_decision-ok candidates max_targets Json.null h = cc
route_decision-ok candidates max_targets (Json.boolean b) h = cc
route_decision-ok candidates max_targets (Json.number n) h = cc
route_decision-ok candidates max_targets (Json.text s) h = cc
route_decision-ok candidates max_targets (Json.object entries) h = cc
route_decision-ok candidates max_targets (Json.array items) {d} h =
    let (u, filled, h) = bind_ok (guard (not (eqb (count_items items) 0)) parse_error) _ h in
    let (v, bounded, h) = bind_ok (guard (leb (count_items items) max_targets) parse_error) _ h in
    let (targets, parsed, h) = bind_ok (parse_targets candidates 0 items) _ h in
    let (are, count) = parse_targets-ok candidates 0 items parsed in
    let made : RouterDecision = record {
      decision = "route";
      targets = targets;
      question = "";
      reason = "";
    } in
    let e : ◌≡◌ {A = Result RouterDecision} (ok made) (ok d) = h in
    let same : made ≡ d = cc in
    let non_zero = guard_ok (not (eqb (count_items items) 0)) parse_error filled in
    let within = guard_ok (leb (count_items items) max_targets) parse_error bounded in
    let holds : IsRoute candidates max_targets made.targets = record {
      some_target = ground arith;
      bounded = ground arith;
      each = are;
    } in
    subst (λ (x : RouterDecision). IsRoute candidates max_targets x.targets) same holds

other_decision :
    (made d : RouterDecision) (word : String)
    → made ≡ d
    → made.decision ≡ word
    → (word == "route") ≡ false
    → d.decision ≢ "route"
other_decision made d word same named other routed =
    let word_is_route : word ≡ "route" =
      sym named ∙ ap (λ (x : RouterDecision). x.decision) same ∙ routed in
    ground (arith, eq_iff word "route")

decide-IsRoute :
    (candidates : List String) (max_targets : ℕ) (raw : Members) (token : Option String)
    {d : RouterDecision}
    → decide candidates max_targets raw token ≡ ok d
    → d.decision ≡ "route"
    → IsRoute candidates max_targets d.targets
unfolding decide
decide-IsRoute candidates max_targets raw none h routed = cc
decide-IsRoute candidates max_targets raw (some word) {d} h routed =
    elim (Bool-cases (word == "clarify")) [
      | inl clarify ↦
          let (question, read, h) =
            bind_ok (require_nonempty_text (get_key "question" raw)) _
              (rw (clarify, if◌then◌else◌) at h) in
          let made : RouterDecision = record {
            decision = "clarify";
            targets = [];
            question = question;
            reason = "";
          } in
          let e : ◌≡◌ {A = Result RouterDecision} (ok made) (ok d) = h in
          let same : made ≡ d = cc in absurd (other_decision made d "clarify" same refl refl routed)
      | inr more ↦ elim (Bool-cases (word == "reject")) [
        | inl reject ↦
            let (reason, read, h) =
              bind_ok (require_nonempty_text (get_key "reason" raw)) _
                (rw (more, reject, if◌then◌else◌) at h) in
            let made : RouterDecision = record {
              decision = "reject";
              targets = [];
              question = "";
              reason = reason;
            } in
            let e : ◌≡◌ {A = Result RouterDecision} (ok made) (ok d) = h in
            let same : made ≡ d = cc in
            absurd (other_decision made d "reject" same refl refl routed)
        | inr route ↦
            route_decision-ok candidates max_targets (get_key "targets" raw)
              (rw (more, route, if◌then◌else◌) at h)
      ]
    ]

-- An answer that is accepted as a routing has at least one target and no more than allowed; every target
-- is a project with a candidate profile, has a title and a body, and depends only on well-formed
-- references and on placeholders of targets that stand before it.
pub decision_from_json-IsRoute :
    (candidates : List String) (max_targets : ℕ) (raw : Members) {d : RouterDecision}
    → decision_from_json candidates max_targets raw ≡ ok d
    → d.decision ≡ "route"
    → IsRoute candidates max_targets d.targets
unfolding decision_from_json
decision_from_json-IsRoute candidates max_targets raw h routed =
    decide-IsRoute candidates max_targets raw _ h routed
