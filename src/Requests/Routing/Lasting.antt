-- ===== src/Requests/Routing/Lasting.antt =====
-- About the sending of the pending targets over an API that may answer anything.
use issuekit.Prelude.{
  ℕ, zero, suc, is_some, ◌<◌, ◌≤◌, ◌≡◌, refl, true, false, not, Option, none, some, List, [], ◌∷◌,
  is_empty, eqb, any, select, length, arith, ap, ◌∙◌, Result, ok, err, inl, inr, Bool-cases, ◌⊎◌,
}
use issuekit.Prelude.Text.{strip}
use issuekit.Requests.State.{Target, Request, Requests, Refs, put_request}
use issuekit.Requests.Routing.{
  Proposals, World, Context, target_at, is_ready, send_ready, after_round, one_round, send_rounds,
  left_of, send_pending_route_targets, pending_from, sent_refs,
}
use issuekit.Requests.Routing.Places.{
  mem, mem-select, length-select, waits_at, length-pending_from, mem-pending,
}
use issuekit.Requests.Routing.Kept.{Saved, Leaves, send_rounds-Leaves}

module _ {S : Type 0} (api : Proposals S) (context : Context) (state : Requests) (request_id : ℕ)
    (r : Request) where
  after_round_total :
      (more : List Target → Refs → World S → Option (Result (List Target) × World S))
      (t : Result (List Target × Refs) × World S)
      → ((between : List Target) (refs : Refs) (w : World S) → is_some (more between refs w) ≡ true)
      → is_some (after_round api context more t) ≡ true
  after_round_total more (err e, w) others = refl
  after_round_total more (ok (between, refs), w) others = others between refs w

  one_round_total :
      (ready : List ℕ) (targets : List Target) (refs : Refs)
      (more : List ℕ → List Target → Refs → World S → Option (Result (List Target) × World S))
      (w : World S)
      → ((i : ℕ) (others : List ℕ)
          → ready ≡ i ∷ others
          → (between : List Target) (known : Refs) (w₁ : World S)
          → is_some (more ready between known w₁) ≡ true)
      → is_some (one_round api context state request_id r ready targets refs more w) ≡ true
  one_round_total [] targets refs more w others = refl
  one_round_total (i ∷ ready) targets refs more w others =
      after_round_total (more (i ∷ ready))
        (send_ready api context state request_id r (i ∷ ready) targets refs w) (others i ready refl)

  length-left :
      (i : ℕ) (others waiting : List ℕ)
      → mem i waiting ≡ true
      → length (left_of api context (i ∷ others) waiting) < length waiting
  length-left i others [] h = cc
  length-left i others (n ∷ waiting) h = elim (Bool-cases (eqb i n)) [
    | inl this ↦
        let e : n ≡ i = ground arith in
        let self : eqb n i ≡ true = ground arith in
        let le = length-select (λ m. not (any (eqb m) (i ∷ others))) waiting in
        rw self (omega arith)
    | inr other ↦ ground (arith, length-left i others waiting)
  ]

  -- Whatever the API answers, there are no more rounds than indexes that wait.
  pub send_rounds_total :
      (fuel : ℕ) (waiting : List ℕ) (targets : List Target) (refs : Refs) (w : World S)
      → length waiting ≤ fuel
      → is_some (send_rounds api context fuel state request_id r waiting targets refs w) ≡ true
  unfolding send_rounds
  send_rounds_total fuel [] targets refs w enough = refl
  send_rounds_total zero (n ∷ waiting) targets refs w enough = absurd (omega arith)
  send_rounds_total (suc fuel) (n ∷ waiting) targets refs w enough =
      one_round_total (select (is_ready targets refs) (n ∷ waiting)) targets refs
        (λ ready.
          send_rounds api context fuel state request_id r (left_of api context ready (n ∷ waiting)))
        w
        (λ i others e between known w₁.
          let ready = select (is_ready targets refs) (n ∷ waiting) in
          let self : mem i (i ∷ others) ≡ true = ground arith in
          let there = mem-select (is_ready targets refs) i (n ∷ waiting) in
          let within : mem i (n ∷ waiting) ≡ true = let had = ap (mem i) e ∙ self in ground arith in
          let shorter = ap (λ l. length (left_of api context l (n ∷ waiting))) e in
          let less = length-left i others (n ∷ waiting) within in
          send_rounds_total fuel (left_of api context ready (n ∷ waiting)) between known w₁
            (omega arith))

  was_sent :
      (n : ℕ) (targets : List Target) {target : Target}
      → target_at n targets ≡ some target
      → is_empty (strip target.proposal_ref) ≡ false
      → mem n (pending_from 0 targets) ≡ false
  was_sent n targets there sent = mem-pending n targets ∙ ap waits_at there ∙ sent

-- What the file holds of the request after the sending.
abbrev pub Keeps : {S : Type 0} → Requests → ℕ → Request → ℕ → Target → World S → World S → Type 0
Keeps state request_id r n target w w' =
    (w'.saved ≡ w.saved)
    ⊎ ((targets' : List Target) × (w'.saved
          ≡ put_request request_id (record r { targets = targets' }) state)
        × (target_at n targets' ≡ some target))

Saved-Keeps :
    {S : Type 0} (api : Proposals S) (context : Context) (state : Requests) (request_id : ℕ)
    (r : Request) (pending : List ℕ) (targets : List Target) (n : ℕ) (target : Target)
    (w w' : World S)
    → target_at n targets ≡ some target
    → mem n pending ≡ false
    → Saved api context state request_id r pending targets w w'
    → Keeps state request_id r n target w w'
Saved-Keeps api context state request_id r pending targets n target w w' there out
      (Saved.untouched e) =
    inl e
Saved-Keeps api context state request_id r pending targets n target w w' there out
      (Saved.saved t e same) =
    inr (t, e, same n out ∙ there)

After-Keeps :
    {S : Type 0} (api : Proposals S) (context : Context) (state : Requests) (request_id : ℕ)
    (r : Request) (pending : List ℕ) (targets : List Target) (n : ℕ) (target : Target) (w : World S)
    → target_at n targets ≡ some target
    → mem n pending ≡ false
    → (o : Option (Result (List Target) × World S)) → is_some o ≡ true
    → Leaves api context state request_id r pending targets w o
    → (outcome : Result (List Target)) × (w' : World S) × (o ≡ some (outcome, w'))
      × Keeps state request_id r n target w w'
After-Keeps api context state request_id r pending targets n target w there out none h leaves = cc
After-Keeps api context state request_id r pending targets n target w there out (some (err e, w')) h
      leaves =
    (
      err e,
      w',
      refl,
      Saved-Keeps api context state request_id r pending targets n target w w' there out leaves,
    )
After-Keeps api context state request_id r pending targets n target w there out (some (ok t, w')) h
      (leaves, same) =
    (
      ok t,
      w',
      refl,
      Saved-Keeps api context state request_id r pending targets n target w w' there out leaves,
    )

-- Sending the pending targets ends, with a value or an error, whatever the API answers. A target that was
-- sent before stays as it was: the saved requests are unchanged, or they hold the request with it.
pub send_pending_route_targets-Keeps :
    {S : Type 0} (api : Proposals S) (context : Context) (state : Requests) (request_id : ℕ)
    (r : Request) (targets : List Target) (w : World S) (n : ℕ) (target : Target)
    → target_at n targets ≡ some target
    → is_empty (strip target.proposal_ref) ≡ false
    → (outcome : Result (List Target)) × (w' : World S) × (send_pending_route_targets api context
          state request_id r targets w
        ≡ some (outcome, w'))
      × Keeps state request_id r n target w w'
send_pending_route_targets-Keeps api context state request_id r targets w n target there sent =
    After-Keeps api context state request_id r (pending_from 0 targets) targets n target w there
      (was_sent api context state request_id r n targets there sent)
      (send_pending_route_targets api context state request_id r targets w)
      (send_rounds_total api context state request_id r (length targets) (pending_from 0 targets)
        targets (sent_refs 0 targets) w (length-pending_from 0 targets))
      (send_rounds-Leaves api context state request_id r (length targets) (pending_from 0 targets)
        (pending_from 0 targets) targets (sent_refs 0 targets) w (λ m h. h))
