-- ===== src/Requests/Routing/Delivery.antt =====
-- About the sending of one target: the errors that can end it, and what it leaves of the targets.
use issuekit.Prelude.{
  ℕ, String, ◌≡◌, refl, Bool, true, false, Option, none, some, List, [], ◌∷◌, is_empty, is_some,
  eqb, arith, ap, sym, ◌∙◌, inl, inr, Bool-cases, Option-cases, ok, err, Error, Result,
  proposal_error,
}
use issuekit.Agents.Router.{placeholder_index}
use issuekit.Requests.State.{
  Target, Refs, ref_at, resolve_one, resolve_depends_on, target_depends_on, is_sent,
}
use issuekit.Requests.Build.{Draft, Proposal}
use issuekit.Requests.Routing.{
  Context, proposal_of, Sent, SentTarget, Proposals, World, target_at, set_target,
  is_ready_reference, sent_refs, sent_target_of, target_dependencies_ready, ready_at, is_ready,
  sent_update,
}
use issuekit.Requests.Routing.Places.{target_at-set}

resolve_one-ok :
    (refs : Refs) (ref : String)
    → is_ready_reference refs ref ≡ true
    → (found : String) × (resolve_one refs ref ≡ ok found)
unfolding is_ready_reference resolve_one
resolve_one-ok refs ref h = elim (Option-cases (placeholder_index ref)) [
  | inl plain ↦ (ref, rw (plain, resolve_one) refl)
  | inr (n, placed) ↦ elim (Option-cases (ref_at n refs)) [
    | inl missing ↦ let bad : false ≡ true = rw (placed, missing, is_ready_reference) at h in cc
    | inr (found, there) ↦ (found, rw (placed, resolve_one) (rw there refl))
  ]
]

pub resolve_depends_on-ok :
    (depends_on : List String) (refs : Refs)
    → target_dependencies_ready depends_on refs ≡ true
    → (found : List String) × (resolve_depends_on depends_on refs ≡ ok found)
unfolding target_dependencies_ready resolve_depends_on
resolve_depends_on-ok [] refs h = ([], refl)
resolve_depends_on-ok (ref ∷ depends_on) refs h =
    let (first, one) = resolve_one-ok refs ref (ground arith) in
    let (rest, others) = resolve_depends_on-ok depends_on refs (ground arith) in
    (first ∷ rest, rw (one, others) refl)

-- More references are known.
abbrev pub Knows : Refs → Refs → Type 0
Knows refs more = (n : ℕ) → is_some (ref_at n refs) ≡ true → is_some (ref_at n more) ≡ true

is_ready_reference_mono :
    (refs more : Refs) (ref : String)
    → Knows refs more
    → is_ready_reference refs ref ≡ true
    → is_ready_reference more ref ≡ true
unfolding is_ready_reference
is_ready_reference_mono refs more ref knows h = elim (Option-cases (placeholder_index ref)) [
  | inl plain ↦ rw (plain, is_ready_reference) refl
  | inr (n, placed) ↦
      rw (placed, is_ready_reference) (knows n (rw (placed, is_ready_reference) at h))
]

target_dependencies_ready_mono :
    (depends_on : List String) (refs more : Refs)
    → Knows refs more
    → target_dependencies_ready depends_on refs ≡ true
    → target_dependencies_ready depends_on more ≡ true
unfolding target_dependencies_ready
target_dependencies_ready_mono [] refs more knows h = refl
target_dependencies_ready_mono (ref ∷ depends_on) refs more knows h = ground (
  arith,
  is_ready_reference_mono refs more ref knows,
  target_dependencies_ready_mono depends_on refs more knows,
)

-- The targets after some were sent: the dependencies are the same, and what was sent stays sent.
abbrev pub depends_of : Option Target → Option (List String)
depends_of none = none
depends_of (some t) = some (target_depends_on t)

abbrev pub sent_of : Option Target → Bool
sent_of none = false
sent_of (some t) = is_sent t

abbrev pub depends_at : ℕ → List Target → Option (List String)
depends_at n targets = depends_of (target_at n targets)

abbrev pub is_sent_at : ℕ → List Target → Bool
is_sent_at n targets = sent_of (target_at n targets)

-- What a proposal takes over from its target.
abbrev pub content_of : Option Target → Option (String × String × String)
content_of none = none
content_of (some t) = some (t.project, t.title, t.body)

abbrev pub content_at : ℕ → List Target → Option (String × String × String)
content_at n targets = content_of (target_at n targets)

-- The proposal as it is sent.
abbrev pub stamped : Draft → Proposal → Proposal
stamped d p = record p { origin = d.origin }

-- A draft of this target, with its dependencies resolved.
pub record IsDraft (targets : List Target) (n : ℕ) (refs : Refs) (d : Draft) : Type 0 where
  pub content : content_at n targets ≡ some (d.project, d.title, d.body)
  pub depends_on : List String
  pub depends : depends_at n targets ≡ some depends_on
  pub resolved : resolve_depends_on depends_on refs ≡ ok d.depends_on

module _ {S : Type 0} (api : Proposals S) (context : Context) (targets : List Target) where
  -- References that are known in a run: those of the targets that were sent before it, and the API's answers
  -- to proposals of the targets.
  pub data Told : Refs → Type 0 where
    known_before : Told (sent_refs 0 targets)
    answered :
        (n : ℕ) (refs : Refs) (d : Draft) (p : Proposal) (s s' : S) (sent : Sent)
        → Told refs
        → IsDraft targets n refs d
        → proposal_of api context d ≡ ok p
        → api.send_proposal (stamped d p) s ≡ (ok sent, s')
        → Told ((n, (sent_target_of api context d.project sent).dependency_ref) ∷ refs)

  -- The error is the one of building the proposal of a target, or of the API when it was sent, or the
  -- proposal of a target differs from one that is pending there.
  pub data Refused (e : Error) : Type 0 where
    unbuilt :
        (n : ℕ) (refs : Refs) (d : Draft)
        → Told refs
        → IsDraft targets n refs d
        → proposal_of api context d ≡ err e
        → Refused e
    unsent :
        (n : ℕ) (refs : Refs) (d : Draft) (p : Proposal) (s s' : S)
        → Told refs
        → IsDraft targets n refs d
        → proposal_of api context d ≡ ok p
        → api.send_proposal (stamped d p) s ≡ (err e, s')
        → Refused e
    mismatched :
        (n : ℕ) (refs : Refs) (d : Draft) (p : Proposal) (s s' : S) (sent : Sent)
        → Told refs
        → IsDraft targets n refs d
        → proposal_of api context d ≡ ok p
        → api.send_proposal (stamped d p) s ≡ (ok sent, s')
        → sent.payload_mismatch ≡ true
        → e ≡ proposal_error
        → Refused e

  -- The result is such an error.
  abbrev pub Stops : {A : Type 0} → Result A × World S → Type 0
  Stops x = (e : Error) × (w' : World S) × (x ≡ (err e, w')) × Refused e

  -- What holds of the targets and the references as the run goes on from the first targets.
  pub record From (now : List Target) (refs : Refs) : Type 0 where
    pub content : (n : ℕ) → content_at n now ≡ content_at n targets
    pub depends : (n : ℕ) → depends_at n now ≡ depends_at n targets
    pub told : Told refs

pub record Extends (targets : List Target) (refs : Refs) (targets' : List Target) (refs' : Refs)
    : Type 0 where
  pub same : (n : ℕ) → depends_at n targets' ≡ depends_at n targets
  pub content : (n : ℕ) → content_at n targets' ≡ content_at n targets
  pub kept : (n : ℕ) → is_sent_at n targets ≡ true → is_sent_at n targets' ≡ true
  pub knows : Knows refs refs'

abbrev ready_of : Option (List String) → Refs → Bool
ready_of none refs = false
ready_of (some depends_on) refs = target_dependencies_ready depends_on refs

ready_at-depends :
    (o : Option Target) (refs : Refs) → ready_at o refs ≡ ready_of (depends_of o) refs
ready_at-depends none refs = refl
ready_at-depends (some t) refs = refl

ready_of_mono :
    (o : Option (List String)) (refs more : Refs)
    → Knows refs more
    → ready_of o refs ≡ true
    → ready_of o more ≡ true
ready_of_mono none refs more knows h = h
ready_of_mono (some depends_on) refs more knows h =
    target_dependencies_ready_mono depends_on refs more knows h

pub is_ready-Extends :
    (targets targets' : List Target) (refs refs' : Refs) (n : ℕ)
    → Extends targets refs targets' refs'
    → is_ready targets refs n ≡ true
    → is_ready targets' refs' n ≡ true
is_ready-Extends targets targets' refs refs' n extends h =
    let before = sym (ready_at-depends (target_at n targets) refs) ∙ h in
    ready_at-depends (target_at n targets') refs'
    ∙ ap (λ o. ready_of o refs') (extends.same n)
    ∙ ready_of_mono (depends_at n targets) refs refs' extends.knows before

pub Extends-refl : (targets : List Target) (refs : Refs) → Extends targets refs targets refs
Extends-refl targets refs = record {
  same = λ n. refl;
  content = λ n. refl;
  kept = λ n h. h;
  knows = λ n h. h;
}

pub Extends-trans :
    {t₁ t₂ t₃ : List Target} {r₁ r₂ r₃ : Refs}
    → Extends t₁ r₁ t₂ r₂
    → Extends t₂ r₂ t₃ r₃
    → Extends t₁ r₁ t₃ r₃
Extends-trans a b = record {
  same = λ n. b.same n ∙ a.same n;
  content = λ n. b.content n ∙ a.content n;
  kept = λ n h. b.kept n (a.kept n h);
  knows = λ n h. b.knows n (a.knows n h);
}

pub From-Extends :
    {S : Type 0} {api : Proposals S} {context : Context} {first now later : List Target}
    {refs refs' : Refs}
    → From api context first now refs
    → Extends now refs later refs'
    → Told api context first refs'
    → From api context first later refs'
From-Extends from extends told = record {
  content = λ n. extends.content n ∙ from.content n;
  depends = λ n. extends.same n ∙ from.depends n;
  told = told;
}

module _ (i : ℕ) (targets : List Target) (stored : Target) (st : SentTarget) (refs : Refs)
    (ref : String) (there : target_at i targets ≡ some stored)
    (named : is_empty st.proposal_ref ≡ false) where
  abbrev pub after : List Target
  after = set_target i (sent_update stored st) targets

  set-same : (n : ℕ) → depends_at n after ≡ depends_at n targets
  unfolding target_depends_on
  set-same n = elim (Bool-cases (eqb i n)) [
    | inl this ↦
        let e : i ≡ n = ground arith in
        ap depends_of (target_at-set i (sent_update stored st) targets n there)
        ∙ rw this (ap depends_of (sym there) ∙ ap (λ m. depends_at m targets) e)
    | inr other ↦
        ap depends_of (target_at-set i (sent_update stored st) targets n there) ∙ rw other refl
  ]

  set-content : (n : ℕ) → content_at n after ≡ content_at n targets
  set-content n = elim (Bool-cases (eqb i n)) [
    | inl this ↦
        let e : i ≡ n = ground arith in
        ap content_of (target_at-set i (sent_update stored st) targets n there)
        ∙ rw this (ap content_of (sym there) ∙ ap (λ m. content_at m targets) e)
    | inr other ↦
        ap content_of (target_at-set i (sent_update stored st) targets n there) ∙ rw other refl
  ]

  set-kept : (n : ℕ) → is_sent_at n targets ≡ true → is_sent_at n after ≡ true
  set-kept n h = elim (Bool-cases (eqb i n)) [
    | inl this ↦
        ap sent_of (target_at-set i (sent_update stored st) targets n there) ∙ rw (this, named) refl
    | inr other ↦ ap sent_of (target_at-set i (sent_update stored st) targets n there) ∙ rw other h
  ]

  pub set-sent : is_sent_at i after ≡ true
  set-sent =
      ap sent_of (target_at-set i (sent_update stored st) targets i there)
      ∙ (let self : eqb i i ≡ true = ground arith in rw (self, named) refl)

  set-Knows : Knows refs ((i, ref) ∷ refs)
  unfolding ref_at
  set-Knows n h = ground arith

  pub set-Extends : Extends targets refs after ((i, ref) ∷ refs)
  set-Extends = record {
    same = set-same;
    content = set-content;
    kept = set-kept;
    knows = set-Knows;
  }
