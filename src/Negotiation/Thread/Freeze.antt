-- ===== src/Negotiation/Thread/Freeze.antt =====
-- The contract that a converged thread freezes.
use mathlib.Core.Path.{subst}
use issuekit.Prelude.{
  String, ◌≡◌, refl, Bool, true, false, ◌||◌, Option, none, some, List, [], ◌∷◌, ◌++◌, arith,
  eq_iff, any, last?, is_empty, Bool-cases, Option-cases, inl, inr, ◌≢◌,
}
use issuekit.Prelude.Dict.{put}
use issuekit.Prelude.Text.{strip}
use issuekit.Negotiation.Model.{NegotiationEntry, is_agree, counter}
use issuekit.Negotiation.Thread.{
  negotiating, agreed, earlier, latest_contract, contract_hash, is_counterpart,
  latest_agree_matches_counterpart, agreements_from, unanimous, evaluate_convergence, normalized,
  agree_matches,
}
use issuekit.Negotiation.Thread.Agreements.{
  unanimous-agreed_on, agreements_from-Distinct, agreements_from-snoc, any_other-agreements,
}

abbrev Thread : Type 0
Thread = List NegotiationEntry

pub last?-snoc : (t : Thread) (e : NegotiationEntry) → last? (t ++ e ∷ []) ≡ some e
last?-snoc [] e = refl
last?-snoc (x ∷ []) e = refl
last?-snoc (x ∷ y ∷ t) e = last?-snoc (y ∷ t) e

pub earlier-snoc : (t : Thread) (e : NegotiationEntry) → earlier (t ++ e ∷ []) ≡ t
earlier-snoc [] e = refl
earlier-snoc (x ∷ []) e = refl
earlier-snoc (x ∷ y ∷ t) e = rw (earlier-snoc (y ∷ t) e)

pub any-snoc {ℓ} :
    {A : Type ℓ} (p : A → Bool) (t : List A) (e : A) → any p (t ++ e ∷ []) ≡ (any p t || p e)
any-snoc p [] e = ground arith
any-snoc p (x ∷ t) e = ground (arith, any-snoc p t e)

-- The newest entry's contract is the latest contract, if it is a text.
latest_contract-last :
    (t : Thread) (e : NegotiationEntry) (c : String)
    → last? t ≡ some e
    → e.contract ≡ some c
    → is_empty c ≡ false
    → latest_contract t ≡ some c
unfolding latest_contract
latest_contract-last [] e c l h ne = cc
latest_contract-last (x ∷ []) e c l h ne = ground arith
latest_contract-last (x ∷ y ∷ t) e c l h ne =
    ground (arith, latest_contract-last (y ∷ t) e c l h ne)

module _ (sha256 : String → String) where
  latest_matches-snoc :
      (t : Thread) (e : NegotiationEntry) (h : String)
      → contract_hash sha256 e.contract ≡ some h
      → is_agree e.verdict ≡ true
      → any (is_counterpart sha256 e.side h) t ≡ true
      → latest_agree_matches_counterpart sha256 (t ++ e ∷ []) ≡ true
  unfolding latest_agree_matches_counterpart
  latest_matches-snoc t e h hash agrees found =
      rw
        (
          last?-snoc t e,
          latest_agree_matches_counterpart,
          hash,
          agree_matches,
          agrees,
          earlier-snoc t e,
        )
        found

  -- If a thread has not converged and one more entry makes it agreed, that entry agrees to a
  -- contract that an entry of the other side has.
  pub agreed-latest_matches :
      (t : Thread) (e : NegotiationEntry)
      → evaluate_convergence sha256 t ≡ negotiating
      → evaluate_convergence sha256 (t ++ e ∷ []) ≡ agreed
      → latest_agree_matches_counterpart sha256 (t ++ e ∷ []) ≡ true
  unfolding evaluate_convergence
  agreed-latest_matches t e before after =
      elim (Bool-cases (latest_agree_matches_counterpart sha256 (t ++ e ∷ []))) [
        | inl now ↦ now
        | inr not_now ↦
            let (h, hash, agrees, found) =
              unanimous-agreed_on (contract_hash sha256 e.contract) (is_agree e.verdict) e.side
                (agreements_from sha256 [] t) (agreements_from-Distinct sha256 t [] tt)
                (ground arith) (rw (agreements_from-snoc sha256 t [] e) at unanimous_now not_now) in
            latest_matches-snoc t e h hash agrees (any_other-agreements sha256 e.side h t [] found)
      ]
    where
      unanimous_now :
          latest_agree_matches_counterpart sha256 (t ++ e ∷ []) ≡ false
          → unanimous (agreements_from sha256 [] (t ++ e ∷ [])) ≡ true
      unanimous_now no_match = ground arith

  contract_hash-empty : contract_hash sha256 (some "") ≡ none
  unfolding contract_hash normalized strip
  contract_hash-empty = refl

  pub hashed_contract :
      (o : Option String) (h : String)
      → contract_hash sha256 o ≡ some h
      → (c : String) × (o ≡ some c) × (is_empty c ≡ false)
  unfolding contract_hash
  hashed_contract none h e = cc
  hashed_contract (some c) h e = elim (Bool-cases (is_empty c)) [
    | inl empty ↦
        let e' : c ≡ "" = ground (arith, eq_iff c "") in
        absurd (ground (arith, contract_hash-empty))
    | inr full ↦ (c, refl, full)
  ]

  -- The contract that a matching thread freezes is the newest entry's, and an earlier entry of the
  -- other side has a contract of the same hash.
  pub latest_contract-matching :
      (t : Thread)
      → latest_agree_matches_counterpart sha256 t ≡ true
      → (latest : NegotiationEntry) × (h : String) × (last? t ≡ some latest)
        × (latest_contract t ≡ latest.contract)
        × (contract_hash sha256 latest.contract ≡ some h)
        × (is_agree latest.verdict ≡ true)
        × (any (is_counterpart sha256 latest.side h) (earlier t) ≡ true)
  unfolding latest_agree_matches_counterpart
  latest_contract-matching t m = elim (Option-cases (last? t)) [
    | inl nothing ↦ absurd (ground arith)
    | inr (latest, last) ↦ elim (Option-cases (contract_hash sha256 latest.contract)) [
      | inl nothing ↦ absurd (ground arith)
      | inr (h, hash) ↦
          let (c, contract, nonempty) = hashed_contract latest.contract h hash in
          (
            latest,
            h,
            last,
            cc (latest_contract-last t latest c last contract nonempty, contract),
            hash,
            ground arith,
            ground arith,
          )
    ]
  ]

  -- If a thread has not converged and one more entry makes it agreed, the contract that is frozen
  -- is the one of that entry, which agrees to it, and an entry of the other side before it has a
  -- contract of the same hash.
  pub freeze_agreed :
      (t : Thread) (e : NegotiationEntry)
      → evaluate_convergence sha256 t ≡ negotiating
      → evaluate_convergence sha256 (t ++ e ∷ []) ≡ agreed
      → (h : String) × (latest_contract (t ++ e ∷ []) ≡ e.contract)
        × (contract_hash sha256 e.contract ≡ some h)
        × (is_agree e.verdict ≡ true)
        × (any (is_counterpart sha256 e.side h) t ≡ true)
  freeze_agreed t e before after =
      let (latest, h, last, newest, hash, agrees, found) =
        latest_contract-matching (t ++ e ∷ []) (agreed-latest_matches t e before after) in
      let same : latest ≡ e = cc (last, last?-snoc t e) in
      (
        h,
        cc (newest, same),
        cc (hash, same),
        cc (agrees, same),
        subst (λ (x : NegotiationEntry). any (is_counterpart sha256 x.side h) t ≡ true) same
            (rw (earlier-snoc t e) at found),
      )

  -- If the two sides agree to contracts of the same hash and a counter with a nonempty contract
  -- follows, the thread is agreed and its latest contract is the countering one.
  pub agreed_superseded :
      (a b c : NegotiationEntry) (h k : String)
      → is_agree a.verdict ≡ true
      → is_agree b.verdict ≡ true
      → c.verdict ≡ counter
      → a.side ≢ b.side
      → contract_hash sha256 a.contract ≡ some h
      → contract_hash sha256 b.contract ≡ some h
      → c.contract ≡ some k
      → is_empty k ≡ false
      → (evaluate_convergence sha256 (a ∷ b ∷ c ∷ []) ≡ agreed)
        × (latest_contract (a ∷ b ∷ c ∷ []) ≡ some k)
  unfolding evaluate_convergence latest_agree_matches_counterpart agreements_from latest_contract
      put
  agreed_superseded a b c h k va vb vc sides ha hb hc ne =
      ground (arith, eq_iff a.side b.side, eq_iff h h)
