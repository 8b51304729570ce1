-- ===== src/Requests/Routing/Delivered.antt =====
-- About the sending of all saved targets.
use issuekit.Prelude.{
  Ascending, ℕ, zero, suc, ◌+◌, ◌<◌, ◌≤◌, String, ◌≡◌, refl, true, false, not, ◌&&◌, Option, none,
  some, List, [], ◌∷◌, is_empty, is_some, eqb, any, select, length, All, arith, ap, sym, ◌∙◌,
  Option-cases, ok, err, Error, Result, ◌⊎◌, inl, inr, Bool-cases, eq_iff,
}
use issuekit.Prelude.Text.{strip}
use issuekit.Agents.Router.{placeholder_index}
use issuekit.Requests.State.{Target, Request, Requests, Refs, ref_at, target_depends_on, all_sent}
use issuekit.Requests.Routing.{
  Proposals, World, Context, target_at, is_ready, ready_at, is_ready_reference,
  target_dependencies_ready, after_round, one_round, send_rounds, left_of,
  send_pending_route_targets, pending_from, sent_refs,
}
use issuekit.Requests.Routing.Places.{
  mem-pending, length-pending_from, mem, target_at-below, mem-select, length-select,
  Ascending-select, Ascending-mem, pending_from-Ascending, ref_at-sent_refs, waits_at, sent_at,
}
use issuekit.Requests.Routing.Delivery.{
  Refused, known_before, From, Extends, depends_at, depends_of, is_sent_at, sent_of,
}
use issuekit.Requests.Routing.Rounds.{send_ready-ends}

-- A placeholder names an index before this one.
abbrev pub Before : ℕ → String → Type 0
Before n ref = (j : ℕ) → placeholder_index ref ≡ some j → j < n

-- The dependencies of each target are on targets that stand before it.
abbrev pub Earlier : List Target → Type 0
Earlier targets =
    (n : ℕ) (depends_on : List String)
    → depends_at n targets ≡ some depends_on
    → All (Before n) depends_on

-- The indexes that wait are those of targets, and all others are sent and have their reference known.
pub record Covers (pending : List ℕ) (targets : List Target) (refs : Refs) : Type 0 where
  pub valid : (n : ℕ) → mem n pending ≡ true → is_some (target_at n targets) ≡ true
  pub sent :
      (n : ℕ)
      → is_some (target_at n targets) ≡ true
      → mem n pending ≡ false
      → (is_sent_at n targets ≡ true) × (is_some (ref_at n refs) ≡ true)

ready-Before :
    (n : ℕ) (refs : Refs) (depends_on : List String)
    → All (Before n) depends_on
    → ((j : ℕ) → j < n → is_some (ref_at j refs) ≡ true)
    → target_dependencies_ready depends_on refs ≡ true
unfolding target_dependencies_ready is_ready_reference
ready-Before n refs [] before known = refl
ready-Before n refs (ref ∷ depends_on) (first, before) known =
    elim (Option-cases (placeholder_index ref)) [
      | inl plain ↦ rw (plain, is_ready_reference) (ready-Before n refs depends_on before known)
      | inr (j, placed) ↦
          rw (placed, is_ready_reference)
            (rw (known j (first j placed)) (ready-Before n refs depends_on before known))
    ]

some-is_some :
    (n : ℕ) (targets : List Target)
    → is_some (target_at n targets) ≡ true
    → (t : Target) × (target_at n targets ≡ some t)
some-is_some n targets h = elim (Option-cases (target_at n targets)) [
  | inl absent ↦ let bad = sym (ap is_some absent) ∙ h in cc
  | inr found ↦ found
]

-- The first target that waits is ready.
head-ready :
    (n : ℕ) (pending : List ℕ) (targets : List Target) (refs : Refs)
    → Ascending 0 (n ∷ pending)
    → Covers (n ∷ pending) targets refs
    → Earlier targets
    → is_ready targets refs n ≡ true
head-ready n pending targets refs (least, up) covers earlier =
    let (t, there) = some-is_some n targets (covers.valid n (ground arith)) in
    let before = earlier n (target_depends_on t) (ap depends_of there) in
    let ready = ready-Before n refs (target_depends_on t) before (λ j lt.
      let (u, below) = target_at-below n j targets there lt in
      let absent : mem j (n ∷ pending) ≡ false = elim (Bool-cases (mem j (n ∷ pending))) [
        | inl present ↦
            let le = Ascending-mem n j (n ∷ pending) (omega arith, up) present in
            absurd (omega arith)
        | inr absent ↦ absent
      ] in
      (covers.sent j (ap is_some below) absent).1) in
    ap (λ o. ready_at o refs) there ∙ ready

Earlier-Extends :
    {targets targets' : List Target} {refs refs' : Refs}
    → Extends targets refs targets' refs'
    → Earlier targets
    → Earlier targets'
Earlier-Extends extends earlier n depends_on h = earlier n depends_on (sym (extends.same n) ∙ h)

is_some-depends : (o : Option Target) → is_some (depends_of o) ≡ is_some o
is_some-depends none = refl
is_some-depends (some t) = refl

is_some-Extends :
    {targets targets' : List Target} {refs refs' : Refs}
    → Extends targets refs targets' refs'
    → (n : ℕ) → is_some (target_at n targets') ≡ is_some (target_at n targets)
is_some-Extends {targets} {targets'} extends n =
    sym (is_some-depends (target_at n targets'))
    ∙ ap is_some (extends.same n)
    ∙ is_some-depends (target_at n targets)

module _ {S : Type 0} (api : Proposals S) (context : Context) where
  mem-left :
      (n : ℕ) (ready pending : List ℕ)
      → mem n (left_of api context ready pending) ≡ (mem n pending && not (mem n ready))
  mem-left n ready pending = mem-select (λ m. not (any (eqb m) ready)) n pending

  Covers-left :
      (ready pending : List ℕ) (targets targets' : List Target) (refs refs' : Refs)
      → Covers pending targets refs
      → Extends targets refs targets' refs'
      → ((n : ℕ)
          → mem n ready ≡ true
          → (is_sent_at n targets' ≡ true) × (is_some (ref_at n refs') ≡ true))
      → Covers (left_of api context ready pending) targets' refs'
  Covers-left ready pending targets targets' refs refs' covers extends these = record {
    valid = λ n h.
        is_some-Extends extends n
        ∙ covers.valid n (let e = mem-left n ready pending in ground arith);
    sent = λ n there h. elim (Bool-cases (mem n ready)) [
      | inl now ↦ these n now
      | inr other ↦
          let before =
            covers.sent n (sym (is_some-Extends extends n) ∙ there)
              (let e = mem-left n ready pending in ground arith) in
          (extends.kept n before.0, extends.knows n before.1)
    ];
  }

  module _ (first : List Target) (state : Requests) (request_id : ℕ) (r : Request) where
    ready-mem :
        (n : ℕ) (pending : List ℕ) (targets : List Target) (refs : Refs)
        → is_ready targets refs n ≡ true
        → (m : ℕ) → mem m (n ∷ select (is_ready targets refs) pending) ≡ true
        → is_ready targets refs m ≡ true
    ready-mem n pending targets refs h m there = elim (Bool-cases (eqb m n)) [
      | inl this ↦ let e : m ≡ n = ground arith in ap (is_ready targets refs) e ∙ h
      | inr other ↦ let e = mem-select (is_ready targets refs) m pending in ground arith
    ]

    left-shorter :
        (n : ℕ) (others pending : List ℕ)
        → length (left_of api context (n ∷ others) (n ∷ pending)) ≤ length pending
    left-shorter n others pending =
        ground (arith, length-select (λ m. not (any (eqb m) (n ∷ others))) pending)

    abbrev StopsRounds : Option (Result (List Target) × World S) → Type 0
    StopsRounds x =
        (e : Error) × (w' : World S) × (x ≡ some (err e, w')) × Refused api context first e

    send_rounds-ends :
        (fuel : ℕ) (pending : List ℕ) (targets : List Target) (refs : Refs) (w : World S)
        → length pending ≤ fuel
        → Ascending 0 pending
        → Covers pending targets refs
        → Earlier targets
        → From api context first targets refs
        → ((targets' : List Target) × (w' : World S) × (send_rounds api context fuel state
                request_id r pending targets refs w
              ≡ some (ok targets', w'))
            × ((n : ℕ) → is_some (target_at n targets') ≡ true → is_sent_at n targets' ≡ true))
          ⊎ StopsRounds (send_rounds api context fuel state request_id r pending targets refs w)
    unfolding send_rounds
    send_rounds-ends fuel [] targets refs w enough up covers earlier from =
        inl (targets, w, refl, λ n there. (covers.sent n there refl).0)
    send_rounds-ends zero (n ∷ pending) targets refs w enough up covers earlier from =
        absurd (omega arith)
    send_rounds-ends (suc fuel) (n ∷ pending) targets refs w enough up covers earlier from =
        let now = head-ready n pending targets refs up covers earlier in
        let others = select (is_ready targets refs) pending in
        let left = left_of api context (n ∷ others) (n ∷ pending) in
        let more = λ (ready : List ℕ).
          send_rounds api context fuel state request_id r
            (left_of api context ready (n ∷ pending)) in
        let start : select (is_ready targets refs) (n ∷ pending) ≡ n ∷ others = rw now refl in
        let round =
          ap (λ ready. one_round api context state request_id r ready targets refs more w) start in
        elim (send_ready-ends api context first state request_id r (n ∷ others) targets refs w from
          (ready-mem n pending targets refs now)) [
            | inr (e, w₁, sent, refused) ↦
                inr (e, w₁, round ∙ ap (after_round api context (more (n ∷ others))) sent, refused)
            | inl (t₁, r₁, w₁, sent, extends, from₁, these) ↦
                let so_far = round ∙ ap (after_round api context (more (n ∷ others))) sent in
                elim (send_rounds-ends fuel left t₁ r₁ w₁
                  (let shorter = left-shorter n others pending in omega arith)
                  (Ascending-select (λ m. not (any (eqb m) (n ∷ others))) 0 (n ∷ pending) up)
                  (Covers-left (n ∷ others) (n ∷ pending) targets t₁ refs r₁ covers extends these)
                  (Earlier-Extends extends earlier) from₁) [
                    | inr (e, w₂, rest, refused) ↦ inr (e, w₂, so_far ∙ rest, refused)
                    | inl (t₂, w₂, rest, all) ↦ inl (t₂, w₂, so_far ∙ rest, all)
                  ]
          ]

strip-empty : (s : String) → is_empty (strip s) ≡ false → is_empty s ≡ false
unfolding strip
strip-empty s h = elim (Bool-cases (is_empty s)) [
  | inr full ↦ full
  | inl blank ↦
      let e : s ≡ "" = ground (arith, eq_iff s "") in
      let bad : true ≡ false = sym (ap (λ t. is_empty (strip t)) e) ∙ h in cc
]

sent_at-sent_of : (o : Option Target) → sent_at o ≡ true → sent_of o ≡ true
sent_at-sent_of none h = cc
sent_at-sent_of (some t) h = ground (arith, strip-empty t.proposal_ref)

waits-or_sent : (o : Option Target) → is_some o ≡ true → waits_at o ≡ false → sent_at o ≡ true
waits-or_sent none h k = cc
waits-or_sent (some t) h k = ground arith

waits-is_some : (o : Option Target) → waits_at o ≡ true → is_some o ≡ true
waits-is_some none h = cc
waits-is_some (some t) h = refl

known-sent :
    (n : ℕ) (targets : List Target)
    → is_some (ref_at n (sent_refs 0 targets)) ≡ sent_at (target_at n targets)
known-sent n targets =
    let e : n ≡ 0 + n = omega arith in
    ap (λ m. is_some (ref_at m (sent_refs 0 targets))) e ∙ ref_at-sent_refs 0 n targets

Covers-pending :
    (targets : List Target) → Covers (pending_from 0 targets) targets (sent_refs 0 targets)
Covers-pending targets = record {
  valid = λ n h. waits-is_some (target_at n targets) (sym (mem-pending n targets) ∙ h);
  sent = λ n there h.
      let is_there = waits-or_sent (target_at n targets) there (sym (mem-pending n targets) ∙ h) in
      (sent_at-sent_of (target_at n targets) is_there, known-sent n targets ∙ is_there);
}

all_sent_of_each :
    (targets : List Target)
    → ((n : ℕ) → is_some (target_at n targets) ≡ true → is_sent_at n targets ≡ true)
    → all_sent targets ≡ true
unfolding target_at
all_sent_of_each [] h = refl
all_sent_of_each (t ∷ targets) h =
    let rest = all_sent_of_each targets (λ n. h (suc n)) in let first = h 0 refl in ground arith

-- Where each saved target depends only on targets that stand before it, sending ends, in no more rounds
-- than there are targets, with every target sent or with the error of a target that was refused.
pub send_pending_route_targets-ends :
    {S : Type 0} (api : Proposals S) (context : Context) (state : Requests) (request_id : ℕ)
    (r : Request) (targets : List Target) (w : World S)
    → Earlier targets
    → ((targets' : List Target) × (w' : World S) × (send_pending_route_targets api context state
            request_id r targets w
          ≡ some (ok targets', w'))
        × (all_sent targets' ≡ true))
      ⊎ ((e : Error) × (w' : World S) × (send_pending_route_targets api context state request_id r
              targets w
            ≡ some (err e, w'))
          × Refused api context targets e)
send_pending_route_targets-ends api context state request_id r targets w earlier =
    elim (send_rounds-ends api context targets state request_id r (length targets)
      (pending_from 0 targets) targets (sent_refs 0 targets) w (length-pending_from 0 targets)
      (pending_from-Ascending 0 targets) (Covers-pending targets) earlier
      (record { content = λ n. refl; depends = λ n. refl; told = known_before })) [
        | inl (targets', w', sent, all) ↦ inl (targets', w', sent, all_sent_of_each targets' all)
        | inr stopped ↦ inr stopped
      ]
