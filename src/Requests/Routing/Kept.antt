-- ===== src/Requests/Routing/Kept.antt =====
-- About what is saved while targets are sent, whether or not every call succeeds.
use issuekit.Prelude.{
  ℕ, zero, suc, String, ◌≡◌, refl, true, false, not, Option, none, some, List, [], ◌∷◌, eqb, any,
  select, arith, ap, sym, ◌∙◌, Option-cases, Result, ok, err, inl, inr, Bool-cases,
}
use issuekit.Prelude.Effects.{Effect, return, lift, then_do, continue}
use issuekit.Requests.State.{
  Target, Request, Requests, Refs, put_request, resolve_depends_on, target_depends_on,
}
use issuekit.Requests.Build.{Draft, Proposal}
use issuekit.Requests.Routing.{
  proposal_of, Sent, SentTarget, Proposals, World, Context, target_at, set_target, is_ready,
  sent_update, on_api, send_target_proposal, sent_target_of, draft_of, record_sent,
  send_stored_target, send_route_target, send_ready, after_round, one_round, send_rounds, left_of,
}
use issuekit.Requests.Routing.Places.{mem, target_at-set, mem-select}

-- The targets outside these indexes are as they were.
abbrev pub Same : List ℕ → List Target → List Target → Type 0
Same pending targets targets' =
    (m : ℕ) → mem m pending ≡ false → target_at m targets' ≡ target_at m targets

module _ {S : Type 0} (api : Proposals S) (context : Context) (state : Requests) (request_id : ℕ)
    (r : Request) where
  -- The file is as it was, or it holds the request with targets that are the same outside these indexes.
  pub data Saved (pending : List ℕ) (targets : List Target) (w w' : World S) : Type 0 where
    untouched : w'.saved ≡ w.saved → Saved pending targets w w'
    saved :
        (targets' : List Target)
        → w'.saved ≡ put_request request_id (record r { targets = targets' }) state
        → Same pending targets targets'
        → Saved pending targets w w'

  Saved_then :
      (pending : List ℕ) (targets between : List Target) (w w₁ w₂ : World S)
      → Same pending targets between
      → Saved pending targets w w₁
      → Saved pending between w₁ w₂
      → Saved pending targets w w₂
  Saved_then pending targets between w w₁ w₂ same (Saved.untouched e) (Saved.untouched f) =
      Saved.untouched (f ∙ e)
  Saved_then pending targets between w w₁ w₂ same (Saved.saved t e s) (Saved.untouched f) =
      Saved.saved t (f ∙ e) s
  Saved_then pending targets between w w₁ w₂ same first (Saved.saved t e s) =
      Saved.saved t e (λ m out. s m out ∙ same m out)

  -- What an effect leaves, with the targets that its value carries.
  abbrev pub After :
      {A : Type 0}
      → (A → List Target)
      → List ℕ
      → List Target
      → World S
      → Result A × World S
      → Type 0
  After carried pending targets w (err e, w') = Saved pending targets w w'
  After carried pending targets w (ok a, w') =
      Saved pending targets w w' × Same pending targets (carried a)

  module _ {A B : Type 0} (carried : A → List Target) (carries : B → List Target) (pending : List ℕ)
      (targets : List Target) (w : World S) where
    After-first :
        (between : List Target) (w₁ : World S)
        → Saved pending targets w w₁
        → Same pending targets between
        → (t : Result B × World S) → After carries pending between w₁ t
        → After carries pending targets w t
    After-first between w₁ first same (err e, w₂) second =
        Saved_then pending targets between w w₁ w₂ same first second
    After-first between w₁ first same (ok b, w₂) (second, others) = (
      Saved_then pending targets between w w₁ w₂ same first second,
      λ m out. others m out ∙ same m out,
    )

    After-continue :
        (t : Result A × World S) (f : A → Effect (World S) B)
        → After carried pending targets w t
        → ((a : A) (w₁ : World S) → After carries pending (carried a) w₁ (f a w₁))
        → After carries pending targets w (continue t f)
    After-continue (err e, w₁) f first others = first
    After-continue (ok a, w₁) f (first, same) others =
        After-first (carried a) w₁ first same (f a w₁) (others a w₁)

  lift-After :
      {A : Type 0} (pending : List ℕ) (targets : List Target) (w : World S) (outcome : Result A)
      → After (λ _. targets) pending targets w (lift outcome w)
  lift-After pending targets w (err e) = Saved.untouched refl
  lift-After pending targets w (ok a) = (Saved.untouched refl, λ m out. refl)

  on_api-After :
      {A : Type 0} (pending : List ℕ) (targets : List Target) (w : World S) (t : Result A × S)
      → After (λ _. targets) pending targets w (t.0, record w { api = t.1 })
  on_api-After pending targets w (err e, s) = Saved.untouched refl
  on_api-After pending targets w (ok a, s) = (Saved.untouched refl, λ m out. refl)

  send_target_proposal-After :
      (pending : List ℕ) (targets : List Target) (draft : Draft) (w : World S)
      → After (λ _. targets) pending targets w (send_target_proposal api context draft w)
  unfolding send_target_proposal
  send_target_proposal-After pending targets draft w =
      let here = λ (A : Type 0) (a : A). targets in
      After-continue (here Proposal) (here SentTarget) pending targets w
        (lift (proposal_of api context draft) w)
        (λ proposal.
          then_do
            (on_api api context (api.send_proposal (record proposal { origin = draft.origin })))
            (λ sent. return (sent_target_of api context draft.project sent)))
        (lift-After pending targets w (proposal_of api context draft))
        (λ proposal w₁.
          let t = api.send_proposal (record proposal { origin = draft.origin }) w₁.api in
          After-continue (here Sent) (here SentTarget) pending targets w₁
            (t.0, record w₁ { api = t.1 })
            (λ sent. return (sent_target_of api context draft.project sent))
            (on_api-After pending targets w₁ t) (λ sent w₂. (Saved.untouched refl, λ m out. refl)))

  module _ (pending : List ℕ) (index : ℕ) (waits : mem index pending ≡ true) where
    Same-set :
        (targets : List Target) (stored new : Target)
        → target_at index targets ≡ some stored
        → Same pending targets (set_target index new targets)
    Same-set targets stored new there m out = elim (Bool-cases (eqb index m)) [
      | inl this ↦
          let e : index ≡ m = ground arith in
          let bad : true ≡ false = sym waits ∙ ap (λ n. mem n pending) e ∙ out in cc
      | inr other ↦ target_at-set index new targets m there ∙ rw other refl
    ]

    record_sent-After :
        (targets : List Target) (stored : Target) (st : SentTarget) (w : World S)
        → target_at index targets ≡ some stored
        → After
            (λ (sent : String × List Target). sent.1)
            pending
            targets
            w
            (record_sent api context state request_id r targets index stored st w)
    unfolding record_sent
    record_sent-After targets stored st w there = elim (Bool-cases st.sent.payload_mismatch) [
      | inl differs ↦ rw differs (Saved.saved targets refl (λ m out. refl))
      | inr fine ↦
          let same = Same-set targets stored (sent_update stored st) there in
          rw fine (Saved.saved (set_target index (sent_update stored st) targets) refl same, same)
    ]

    send_stored_target-After :
        (targets : List Target) (refs : Refs) (stored : Target) (w : World S)
        → target_at index targets ≡ some stored
        → After
            (λ (sent : String × List Target). sent.1)
            pending
            targets
            w
            (send_stored_target api context state request_id r targets index refs stored w)
    unfolding send_stored_target
    send_stored_target-After targets refs stored w there =
        let here = λ (A : Type 0) (a : A). targets in
        let after = λ (sent : String × List Target). sent.1 in
        let outcome = resolve_depends_on (target_depends_on stored) refs in
        let draft = draft_of api context request_id index stored in
        let record_it = record_sent api context state request_id r targets index stored in
        After-continue (here (List String)) after pending targets w (lift outcome w)
          (λ depends_on. then_do (send_target_proposal api context (draft depends_on)) record_it)
          (lift-After pending targets w outcome)
          (λ depends_on w₁.
            After-continue (here SentTarget) after pending targets w₁
              (send_target_proposal api context (draft depends_on) w₁) record_it
              (send_target_proposal-After pending targets (draft depends_on) w₁)
              (λ st w₂. record_sent-After targets stored st w₂ there))

    send_route_target-After :
        (targets : List Target) (refs : Refs) (w : World S)
        → After
            (λ (sent : String × List Target). sent.1)
            pending
            targets
            w
            (send_route_target api context state request_id r targets index refs w)
    unfolding send_route_target
    send_route_target-After targets refs w = elim (Option-cases (target_at index targets)) [
      | inl absent ↦ rw (absent, send_route_target) (Saved.untouched refl)
      | inr (stored, there) ↦
          rw (there, send_route_target) (send_stored_target-After targets refs stored w there)
    ]

  send_ready-After :
      (pending ready : List ℕ) (targets : List Target) (refs : Refs) (w : World S)
      → ((n : ℕ) → mem n ready ≡ true → mem n pending ≡ true)
      → After
          (λ (sent : List Target × Refs). sent.0)
          pending
          targets
          w
          (send_ready api context state request_id r ready targets refs w)
  unfolding send_ready
  send_ready-After pending [] targets refs w within = (Saved.untouched refl, λ m out. refl)
  send_ready-After pending (i ∷ ready) targets refs w within =
      After-continue (λ (sent : String × List Target). sent.1)
        (λ (sent : List Target × Refs). sent.0) pending targets w
        (send_route_target api context state request_id r targets i refs w)
        (λ sent. send_ready api context state request_id r ready sent.1 ((i, sent.0) ∷ refs))
        (send_route_target-After pending i (within i (ground arith)) targets refs w)
        (λ sent w₁.
          send_ready-After pending ready sent.1 ((i, sent.0) ∷ refs) w₁
            (λ n h. within n (ground arith)))

  -- What the loop leaves, when it ends.
  abbrev pub Leaves :
      List ℕ → List Target → World S → Option (Result (List Target) × World S) → Type 0
  Leaves pending targets w none = Unit
  Leaves pending targets w (some t) = After (λ done. done) pending targets w t

  Leaves-first :
      (pending : List ℕ) (targets between : List Target) (w w₁ : World S)
      → Saved pending targets w w₁
      → Same pending targets between
      → (o : Option (Result (List Target) × World S)) → Leaves pending between w₁ o
      → Leaves pending targets w o
  Leaves-first pending targets between w w₁ first same none rest = tt
  Leaves-first pending targets between w w₁ first same (some t) rest =
      After-first {B = List Target} (λ done. done) (λ done. done) pending targets w between w₁ first
        same t rest

  after_round-Leaves :
      (pending : List ℕ) (targets : List Target) (w : World S)
      (more : List Target → Refs → World S → Option (Result (List Target) × World S))
      (t : Result (List Target × Refs) × World S)
      → After (λ (sent : List Target × Refs). sent.0) pending targets w t
      → ((between : List Target) (refs : Refs) (w₁ : World S)
          → Leaves pending between w₁ (more between refs w₁))
      → Leaves pending targets w (after_round api context more t)
  after_round-Leaves pending targets w more (err e, w₁) first others = first
  after_round-Leaves pending targets w more (ok (between, refs), w₁) (first, same) others =
      Leaves-first pending targets between w w₁ first same (more between refs w₁)
        (others between refs w₁)

  one_round-Leaves :
      (pending ready : List ℕ) (targets : List Target) (refs : Refs)
      (more : List ℕ → List Target → Refs → World S → Option (Result (List Target) × World S))
      (w : World S)
      → ((n : ℕ) → mem n ready ≡ true → mem n pending ≡ true)
      → ((between : List Target) (known : Refs) (w₁ : World S)
          → Leaves pending between w₁ (more ready between known w₁))
      → Leaves pending targets w
          (one_round api context state request_id r ready targets refs more w)
  one_round-Leaves pending [] targets refs more w within others = Saved.untouched refl
  one_round-Leaves pending (i ∷ ready) targets refs more w within others =
      after_round-Leaves pending targets w (more (i ∷ ready))
        (send_ready api context state request_id r (i ∷ ready) targets refs w)
        (send_ready-After pending (i ∷ ready) targets refs w within) others

  pub send_rounds-Leaves :
      (fuel : ℕ) (pending waiting : List ℕ) (targets : List Target) (refs : Refs) (w : World S)
      → ((n : ℕ) → mem n waiting ≡ true → mem n pending ≡ true)
      → Leaves pending targets w
          (send_rounds api context fuel state request_id r waiting targets refs w)
  unfolding send_rounds
  send_rounds-Leaves fuel pending [] targets refs w within = (Saved.untouched refl, λ m out. refl)
  send_rounds-Leaves zero pending (n ∷ waiting) targets refs w within = tt
  send_rounds-Leaves (suc fuel) pending (n ∷ waiting) targets refs w within =
      one_round-Leaves pending (select (is_ready targets refs) (n ∷ waiting)) targets refs
        (λ ready.
          send_rounds api context fuel state request_id r (left_of api context ready (n ∷ waiting)))
        w
        (λ m h.
          within m (let e = mem-select (is_ready targets refs) m (n ∷ waiting) in ground arith))
        (λ between known w₁.
          let ready = select (is_ready targets refs) (n ∷ waiting) in
          send_rounds-Leaves fuel pending (left_of api context ready (n ∷ waiting)) between known w₁
            (λ m h.
              within m (
                let e = mem-select (λ k. not (any (eqb k) ready)) m (n ∷ waiting) in ground arith)))
