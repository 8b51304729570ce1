-- ===== src/Requests/Routing/Rounds.antt =====
-- About a round of the sending: it sends everything that is ready, or a target is refused.
use Prim.Native.String
use text.Mathlib.TextLemmas.{append-ne-nil_of_right_ne-nil, cons-append, nil-append}
use issuekit.Prelude.{
  ℕ, String, ◌≡◌, ◌≢◌, refl, true, false, List, [], ◌∷◌, is_empty, is_some, eqb, arith, ap, sym,
  ◌∙◌, Option-cases, ok, eq_iff, inl, inr, Bool-cases, some, ◌⊎◌, Result-cases, proposal_error,
}
use issuekit.Prelude.Effects.{pair-cases}
use issuekit.Requests.State.{
  put_request, Target, Request, Requests, Refs, ref_at, target_depends_on,
}
use issuekit.Requests.Build.{Draft}
use issuekit.Requests.Routing.{
  proposal_of, SentTarget, Proposals, World, Context, target_at, set_target, is_ready, ready_at,
  sent_update, send_target_proposal, sent_target_of, draft_of, record_sent, send_stored_target,
  send_route_target, send_ready, target_dependencies_ready,
}
use issuekit.Requests.Routing.Places.{mem}
use issuekit.Requests.Routing.Delivery.{
  Stops, content_of, stamped, IsDraft, Refused, unbuilt, unsent, mismatched, Told, answered, From,
  From-Extends, depends_of, Extends, Extends-refl, Extends-trans, set-Extends, set-sent,
  is_ready-Extends, is_sent_at, resolve_depends_on-ok,
}

ref-not_empty : (project id : String) → is_empty (String.◌++◌ project (String.◌++◌ "#" id)) ≡ false
ref-not_empty project id =
    let right : String.◌++◌ "#" id ≢ "" = rw (cons-append, nil-append) cc in
    let whole = append-ne-nil_of_right_ne-nil project right in
    ground (arith, eq_iff (String.◌++◌ project (String.◌++◌ "#" id)) "")

module _ {S : Type 0} (api : Proposals S) (context : Context) (first : List Target) where
  send_target_proposal-ends :
      (n : ℕ) (refs : Refs) (draft : Draft) (w : World S)
      → Told api context first refs
      → IsDraft first n refs draft
      → ((st : SentTarget) × (w' : World S) × (send_target_proposal api context draft w
            ≡ (ok st, w'))
          × Told api context first ((n, st.dependency_ref) ∷ refs)
          × ((st.sent.payload_mismatch ≡ true) → Refused api context first proposal_error)
          × (is_empty st.proposal_ref ≡ false))
        ⊎ Stops api context first (send_target_proposal api context draft w)
  unfolding send_target_proposal
  send_target_proposal-ends n refs draft w told is =
      elim (Result-cases (proposal_of api context draft)) [
        | inr (e, built) ↦ inr (e, w, rw built refl, unbuilt n refs draft told is built)
        | inl (p, built) ↦ elim (pair-cases (api.send_proposal (stamped draft p) w.api)) [
          | inr (e, s', sends) ↦ inr (
            e,
            record w { api = s' },
            rw (built, sends) refl,
            unsent n refs draft p w.api s' told is built sends,
          )
          | inl (sent, s', sends) ↦ inl (
            sent_target_of api context draft.project sent,
            record w { api = s' },
            rw (built, sends) refl,
            answered n refs draft p w.api s' sent told is built sends,
            λ differs. mismatched n refs draft p w.api s' sent told is built sends differs refl,
            ref-not_empty draft.project sent.id,
          )
        ]
      ]

  -- What is sent first stays sent while the others are sent.
  sent-all :
      (i : ℕ) (ref : String) (refs : Refs) (ready : List ℕ) (t₁ t₂ : List Target) (r₂ : Refs)
      → Extends t₁ ((i, ref) ∷ refs) t₂ r₂
      → is_sent_at i t₁ ≡ true
      → ((n : ℕ) → mem n ready ≡ true → (is_sent_at n t₂ ≡ true) × (is_some (ref_at n r₂) ≡ true))
      → (n : ℕ) → mem n (i ∷ ready) ≡ true
      → (is_sent_at n t₂ ≡ true) × (is_some (ref_at n r₂) ≡ true)
  unfolding ref_at
  sent-all i ref refs ready t₁ t₂ r₂ further is_now these n h = elim (Bool-cases (eqb n i)) [
    | inl this ↦
        let e : n ≡ i = ground arith in
        let self : eqb i i ≡ true = ground arith in
        let known : is_some (ref_at i ((i, ref) ∷ refs)) ≡ true = rw (self, ref_at) refl in
        (
          ap (λ m. is_sent_at m t₂) e ∙ further.kept i is_now,
          ap (λ m. is_some (ref_at m r₂)) e ∙ further.knows i known,
        )
    | inr other ↦ these n (ground arith)
  ]

  module _ (state : Requests) (request_id : ℕ) (r : Request) where
    send_stored_target-ends :
        (targets : List Target) (i : ℕ) (refs : Refs) (stored : Target) (w : World S)
        → From api context first targets refs
        → target_at i targets ≡ some stored
        → target_dependencies_ready (target_depends_on stored) refs ≡ true
        → ((st : SentTarget) × (w' : World S) × (send_stored_target api context state request_id r
                targets i refs stored w
              ≡ (ok (st.dependency_ref, set_target i (sent_update stored st) targets), w'))
            × Told api context first ((i, st.dependency_ref) ∷ refs)
            × (is_empty st.proposal_ref ≡ false))
          ⊎ Stops api context first
              (send_stored_target api context state request_id r targets i refs stored w)
    unfolding send_stored_target record_sent
    send_stored_target-ends targets i refs stored w from there h =
        let (depends_on, resolved) = resolve_depends_on-ok (target_depends_on stored) refs h in
        let draft = draft_of api context request_id i stored depends_on in
        let is : IsDraft first i refs draft = record {
          content = sym (from.content i) ∙ ap content_of there;
          depends_on = target_depends_on stored;
          depends = sym (from.depends i) ∙ ap depends_of there;
          resolved = resolved;
        } in
        elim (send_target_proposal-ends i refs draft w from.told is) [
          | inr (e, w', sent, refused) ↦ inr (e, w', rw (resolved, sent) refl, refused)
          | inl (st, w', sent, told, refused, named) ↦ elim (Bool-cases st.sent.payload_mismatch) [
            | inl differs ↦ inr (
              proposal_error,
              record w' { saved = put_request request_id (record r { targets = targets }) state },
              rw (resolved, sent, differs) refl,
              refused differs,
            )
            | inr fine ↦ inl (
              st,
              record w' {
                saved =
                    put_request request_id
                      (record r { targets = set_target i (sent_update stored st) targets }) state;
              },
              rw (resolved, sent, fine) refl,
              told,
              named,
            )
          ]
        ]

    send_route_target-ends :
        (targets : List Target) (i : ℕ) (refs : Refs) (w : World S)
        → From api context first targets refs
        → is_ready targets refs i ≡ true
        → ((ref : String) × (targets' : List Target) × (w' : World S) × (send_route_target api
                context state request_id r targets i refs w
              ≡ (ok (ref, targets'), w'))
            × Extends targets refs targets' ((i, ref) ∷ refs)
            × From api context first targets' ((i, ref) ∷ refs)
            × (is_sent_at i targets' ≡ true))
          ⊎ Stops api context first
              (send_route_target api context state request_id r targets i refs w)
    unfolding send_route_target
    send_route_target-ends targets i refs w from h = elim (Option-cases (target_at i targets)) [
      | inl absent ↦ let bad = sym (ap (λ o. ready_at o refs) absent) ∙ h in cc
      | inr (stored, there) ↦
          let ready = sym (ap (λ o. ready_at o refs) there) ∙ h in
          elim (send_stored_target-ends targets i refs stored w from there ready) [
            | inr (e, w', sent, refused) ↦ inr (e, w', rw (there, send_route_target) sent, refused)
            | inl (st, w', sent, told, named) ↦
                let extends = set-Extends i targets stored st refs st.dependency_ref there named in
                inl (
                  st.dependency_ref,
                  set_target i (sent_update stored st) targets,
                  w',
                  rw (there, send_route_target) sent,
                  extends,
                  From-Extends from extends told,
                  set-sent i targets stored st refs st.dependency_ref there named,
                )
          ]
    ]

    -- Everything that is ready is sent, and its references are known, or a target is refused.
    pub send_ready-ends :
        (ready : List ℕ) (targets : List Target) (refs : Refs) (w : World S)
        → From api context first targets refs
        → ((n : ℕ) → mem n ready ≡ true → is_ready targets refs n ≡ true)
        → ((targets' : List Target) × (refs' : Refs) × (w' : World S) × (send_ready api context
                state request_id r ready targets refs w
              ≡ (ok (targets', refs'), w'))
            × Extends targets refs targets' refs'
            × From api context first targets' refs'
            × ((n : ℕ)
                → mem n ready ≡ true
                → (is_sent_at n targets' ≡ true) × (is_some (ref_at n refs') ≡ true)))
          ⊎ Stops api context first (send_ready api context state request_id r ready targets refs w)
    unfolding send_ready ref_at
    send_ready-ends [] targets refs w from all =
        inl (targets, refs, w, refl, Extends-refl targets refs, from, λ n h. cc)
    send_ready-ends (i ∷ ready) targets refs w from all =
        elim (send_route_target-ends targets i refs w from (all i (ground arith))) [
          | inr (e, w₁, sent, refused) ↦ inr (e, w₁, rw sent refl, refused)
          | inl (ref, t₁, w₁, sent, extends, from₁, is_now) ↦
              elim (send_ready-ends ready t₁ ((i, ref) ∷ refs) w₁ from₁ (λ n h.
                is_ready-Extends targets t₁ refs ((i, ref) ∷ refs) n extends
                  (all n (ground arith)))) [
                    | inr (e, w₂, others, refused) ↦ inr (e, w₂, rw sent others, refused)
                    | inl (t₂, r₂, w₂, others, further, from₂, these) ↦ inl (
                      t₂,
                      r₂,
                      w₂,
                      rw sent others,
                      Extends-trans extends further,
                      from₂,
                      sent-all i ref refs ready t₁ t₂ r₂ further is_now these,
                    )
                  ]
        ]
