-- ===== src/Negotiation/Thread/Agreements.antt =====
-- negotiation/thread.py: the dict of agreements that `_agreed_contract_hashes` fills, key by key.
use issuekit.Prelude.{
  String, ◌≡◌, refl, Bool, true, false, not, ◌&&◌, ◌||◌, Option, none, some, List, [], ◌∷◌, ◌++◌,
  arith, eq_iff, ◌==◌, any,
}
use issuekit.Prelude.Dict.{put}
use issuekit.Negotiation.Model.{NegotiationEntry, is_agree}
use issuekit.Negotiation.Thread.{
  contract_hash, is_counterpart, agree_step, agreed_on, agreements_from, unanimous, option_eq,
}

abbrev Thread : Type 0
Thread = List NegotiationEntry

-- Keys stand in the dict once.
abbrev pub Distinct : List (String × String) → Type 0
Distinct [] = Unit
Distinct ((k, v) ∷ d) = (any (λ (a : String × String). a.0 == k) d ≡ false) × Distinct d

any_key-put :
    (j k v : String) (d : List (String × String))
    → any (λ (a : String × String). a.0 == j) (put k v d)
      ≡ (any (λ (a : String × String). a.0 == j) d || k == j)
unfolding put
any_key-put j k v [] = ground arith
any_key-put j k v ((i, w) ∷ d) =
    ground (arith, any_key-put j k v d, eq_iff i k, eq_iff i j, eq_iff k j)

put-Distinct : (k v : String) (d : List (String × String)) → Distinct d → Distinct (put k v d)
unfolding put
put-Distinct k v [] h = (refl, tt)
put-Distinct k v ((i, w) ∷ d) (fresh, h) =
    ground (arith, any_key-put i k v d, eq_iff i k, eq_iff k i, put-Distinct k v d h)

-- An agreement of another side than `k` on `h`.
abbrev pub other_agrees : String → String → String × String → Bool
other_agrees k h a = not (a.0 == k) && a.1 == h

any_other-put :
    (k h side v : String) (d : List (String × String))
    → any (other_agrees k h) (put side v d) ≡ true
    → (any (other_agrees k h) d || other_agrees k h (side, v)) ≡ true
unfolding put
any_other-put k h side v [] e = ground arith
any_other-put k h side v ((i, w) ∷ d) e =
    ground (arith, any_other-put k h side v d, eq_iff i side, eq_iff i k, eq_iff side k)

any_value-put :
    (k v w : String) (d : List (String × String))
    → any (λ (a : String × String). not (a.1 == w)) (put k v d) ≡ false
    → v ≡ w
unfolding put
any_value-put k v w [] h = ground (arith, eq_iff v w)
any_value-put k v w ((i, x) ∷ d) h = ground (arith, eq_iff v w, any_value-put k v w d)

-- A dict that a write makes unanimous had another key with the written value, or was unanimous.
unanimous-put :
    (k h : String) (d : List (String × String))
    → Distinct d
    → unanimous (put k h d) ≡ true
    → any (other_agrees k h) d ≡ true
unfolding put
unanimous-put k h [] fresh e = cc
unanimous-put k h ((j, w) ∷ []) fresh e = ground (arith, eq_iff j k, eq_iff h w, eq_iff w h)
unanimous-put k h ((j, w) ∷ (i, x) ∷ d) fresh e = ground (
  arith,
  eq_iff j k,
  eq_iff i k,
  eq_iff i j,
  eq_iff h w,
  eq_iff w h,
  eq_iff x h,
  eq_iff x w,
  any_value-put k h w d,
)

agreed_on-Distinct :
    (o : Option String) (b : Bool) (side : String) (d : List (String × String))
    → Distinct d
    → Distinct (agreed_on o b side d)
agreed_on-Distinct (some h) true side d p = put-Distinct side h d p
agreed_on-Distinct (some h) false side d p = p
agreed_on-Distinct none b side d p = p

any_other-agreed_on :
    (k h : String) (o : Option String) (b : Bool) (side : String) (d : List (String × String))
    → any (other_agrees k h) (agreed_on o b side d) ≡ true
    → (any (other_agrees k h) d || not (side == k) && option_eq o (some h)) ≡ true
any_other-agreed_on k h (some v) true side d p = ground (arith, any_other-put k h side v d)
any_other-agreed_on k h (some v) false side d p = ground arith
any_other-agreed_on k h none b side d p = ground arith

-- Only an agreement makes the dict unanimous, and then another side agreed on the same.
pub unanimous-agreed_on :
    (o : Option String) (b : Bool) (side : String) (d : List (String × String))
    → Distinct d
    → unanimous d ≡ false
    → unanimous (agreed_on o b side d) ≡ true
    → (h : String) × (o ≡ some h) × (b ≡ true) × (any (other_agrees side h) d ≡ true)
unanimous-agreed_on (some h) true side d p no_yet now =
    (h, refl, refl, unanimous-put side h d p now)
unanimous-agreed_on (some h) false side d p no_yet now = absurd (ground arith)
unanimous-agreed_on none b side d p no_yet now = absurd (ground arith)

module _ (sha256 : String → String) where
  agree_step-Distinct :
      (d : List (String × String)) (e : NegotiationEntry)
      → Distinct d
      → Distinct (agree_step sha256 d e)
  agree_step-Distinct d e h = agreed_on-Distinct _ _ e.side d h

  pub agreements_from-Distinct :
      (t : Thread) (d : List (String × String)) → Distinct d → Distinct (agreements_from sha256 d t)
  unfolding agreements_from
  agreements_from-Distinct [] d h = h
  agreements_from-Distinct (e ∷ t) d h =
      agreements_from-Distinct t (agree_step sha256 d e) (agree_step-Distinct d e h)

  pub agreements_from-snoc :
      (t : Thread) (d : List (String × String)) (e : NegotiationEntry)
      → agreements_from sha256 d (t ++ e ∷ []) ≡ agree_step sha256 (agreements_from sha256 d t) e
  unfolding agreements_from
  agreements_from-snoc [] d e = refl
  agreements_from-snoc (x ∷ t) d e = agreements_from-snoc t (agree_step sha256 d x) e

  any_other-step :
      (k h : String) (d : List (String × String)) (e : NegotiationEntry)
      → any (other_agrees k h) (agree_step sha256 d e) ≡ true
      → (any (other_agrees k h) d || is_counterpart sha256 k h e) ≡ true
  any_other-step k h d e p =
      any_other-agreed_on k h (contract_hash sha256 e.contract) (is_agree e.verdict) e.side d p

  pub any_other-agreements :
      (k h : String) (t : Thread) (d : List (String × String))
      → any (other_agrees k h) (agreements_from sha256 d t) ≡ true
      → (any (other_agrees k h) d || any (is_counterpart sha256 k h) t) ≡ true
  unfolding agreements_from
  any_other-agreements k h [] d p = ground arith
  any_other-agreements k h (e ∷ t) d p =
      ground (arith, any_other-agreements k h t (agree_step sha256 d e), any_other-step k h d e)
