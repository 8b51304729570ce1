-- ===== src/Requests/Found.antt =====
-- About commands/request/state.py: which request a text is about.
use mathlib.Core.Path.{subst}
use issuekit.Prelude.{
  ℕ, ◌+◌, ◌<◌, ◌≤◌, String, ◌≡◌, refl, Bool, true, false, not, ◌||◌, Option, none, some, [], ◌∷◌,
  if◌then◌else◌, ◌==◌, eqb, ltb, leb, arith, ap, sym, ◌∙◌, inl, inr, Bool-cases, Option-cases,
  eq_iff,
}
use issuekit.Requests.State.{
  Request, Requests, get_request, put_request, is_open_for, is_complete, find_open, greatest_id,
  new_request, find_or_create_request,
}

-- No id stands twice.
abbrev pub IsDistinct : Requests → Type 0
IsDistinct [] = Unit
IsDistinct ((n, r) ∷ state) = (get_request n state ≡ none) × IsDistinct state

abbrev least : String → ℕ → Request → Option (ℕ × Request) → Option (ℕ × Request)
least text n r none = if is_open_for text r then some (n, r) else none
least text n r (some (m, q)) =
    if is_open_for text r then (if ltb m n then some (m, q) else some (n, r)) else some (m, q)

find_open-least :
    (text : String) (n : ℕ) (r : Request) (state : Requests)
    → find_open text ((n, r) ∷ state) ≡ least text n r (find_open text state)
unfolding find_open
find_open-least text n r state = elim (Option-cases (find_open text state)) [
  | inl e ↦ rw e (elim (Bool-cases (is_open_for text r)) [ inl o ↦ rw o refl | inr o ↦ rw o refl ])
  | inr ((m, q), e) ↦
      rw e (elim (Bool-cases (is_open_for text r)) [ inl o ↦ rw o refl | inr o ↦ rw o refl ])
]

-- The one that is found stands in the list, is open for the text.
abbrev Stands : String → Requests → Option (ℕ × Request) → Type 0
Stands text state none = Unit
Stands text state (some (n, r)) = (get_request n state ≡ some r) × (is_open_for text r ≡ true)

get_request-later :
    (n m : ℕ) (r q : Request) (state : Requests)
    → get_request n state ≡ none
    → get_request m state ≡ some q
    → get_request m ((n, r) ∷ state) ≡ some q
unfolding get_request
get_request-later n m r q state fresh there = elim (Bool-cases (eqb n m)) [
  | inl same ↦
      let e : n ≡ m = ground arith in
      let bad = sym fresh ∙ ap (λ k. get_request k state) e ∙ there in cc
  | inr other ↦ rw other there
]

least-Stands :
    (text : String) (n : ℕ) (r : Request) (state : Requests) (o : Option (ℕ × Request))
    → get_request n state ≡ none
    → Stands text state o
    → Stands text ((n, r) ∷ state) (least text n r o)
unfolding get_request
least-Stands text n r state none fresh stands = elim (Bool-cases (is_open_for text r)) [
  | inl o ↦ rw o (ground arith, o)
  | inr o ↦ rw o tt
]
least-Stands text n r state (some (m, q)) fresh (there, fits) =
    elim (Bool-cases (is_open_for text r)) [
      | inl o ↦ elim (Bool-cases (ltb m n)) [
        | inl less ↦ rw (o, less) (get_request-later n m r q state fresh there, fits)
        | inr more ↦ rw (o, more) (ground arith, o)
      ]
      | inr o ↦ rw o (get_request-later n m r q state fresh there, fits)
    ]

find_open-Stands :
    (text : String) (state : Requests) → IsDistinct state → Stands text state (find_open text state)
unfolding find_open
find_open-Stands text [] distinct = tt
find_open-Stands text ((n, r) ∷ state) (fresh, distinct) = rw (find_open-least text n r state) (
    least-Stands text n r state (find_open text state) fresh (find_open-Stands text state distinct))

-- Whether what is found is an id up to this one.
abbrev up_to : ℕ → Option (ℕ × Request) → Bool
up_to m none = false
up_to m (some (n, r)) = leb n m

least_up_to :
    (text : String) (m n : ℕ) (r : Request) (o : Option (ℕ × Request))
    → up_to m o ≡ true
    → up_to m (least text n r o) ≡ true
least_up_to text m n r none h = cc
least_up_to text m n r (some (k, q)) h = elim (Bool-cases (is_open_for text r)) [
  | inl o ↦ rw o (ground arith)
  | inr o ↦ rw o h
]

least_at :
    (text : String) (m : ℕ) (r : Request) (o : Option (ℕ × Request))
    → is_open_for text r ≡ true
    → up_to m (least text m r o) ≡ true
least_at text m r none h = rw h (ground arith)
least_at text m r (some (k, q)) h = rw h (ground arith)

find_open-up_to :
    (text : String) (m : ℕ) (q : Request) (state : Requests)
    → get_request m state ≡ some q
    → is_open_for text q ≡ true
    → up_to m (find_open text state) ≡ true
unfolding get_request
find_open-up_to text m q [] there fits = cc
find_open-up_to text m q ((n, r) ∷ state) there fits = elim (Bool-cases (eqb n m)) [
  | inl same ↦
      let e : n ≡ m = ground arith in
      let this : some r ≡ some q = rw same at there in
      let it : r ≡ q = cc in
      ap (up_to m) (find_open-least text n r state)
      ∙ ap (λ k. up_to m (least text k r (find_open text state))) e
      ∙ least_at text m r (find_open text state) (ap (is_open_for text) it ∙ fits)
  | inr other ↦
      ap (up_to m) (find_open-least text n r state)
      ∙ least_up_to text m n r (find_open text state)
          (find_open-up_to text m q state (rw other at there) fits)
]

get_request-greatest_id :
    (m : ℕ) (q : Request) (state : Requests) → get_request m state ≡ some q → m ≤ greatest_id state
unfolding get_request greatest_id
get_request-greatest_id m q [] there = cc
get_request-greatest_id m q ((n, r) ∷ state) there =
    ground (arith, get_request-greatest_id m q state)

pub get_request-put :
    (n m : ℕ) (r : Request) (state : Requests)
    → get_request m (put_request n r state) ≡ (if eqb n m then some r else get_request m state)
unfolding get_request put_request
get_request-put n m r [] = refl
get_request-put n m r ((k, old) ∷ state) = elim (Bool-cases (eqb k n)) [
  | inl same ↦
      let e : k ≡ n = ground arith in
      rw (same, ap (λ i. eqb i m) e)
        (elim (Bool-cases (eqb n m)) [ inl o ↦ rw o refl | inr o ↦ rw o refl ])
  | inr other ↦ ground (arith, get_request-put n m r state)
]

get_request-beyond : (m : ℕ) (state : Requests) → greatest_id state < m → get_request m state ≡ none
get_request-beyond m state lt = elim (Option-cases (get_request m state)) [
  | inl none_there ↦ none_there
  | inr (q, there) ↦ let le = get_request-greatest_id m q state there in absurd (omega arith)
]

-- What the search for a request of a text gives: it is open for the text and stands in the requests, and a
-- request that stood there before is unchanged, and not an open one of the text with a smaller id.
pub record IsFound (text : String) (m : ℕ) (q : Request) (found : ℕ × Request × Requests)
    : Type 0 where
  pub stands : get_request found.0 found.2 ≡ some found.1
  pub fits : is_open_for text found.1 ≡ true
  pub kept : get_request m found.2 ≡ some q
  pub first : (not (is_open_for text q) || leb found.0 m) ≡ true

new_request-fits : (text : String) → is_open_for text (new_request text) ≡ true
unfolding is_complete new_request
new_request-fits text =
    let e : (text == text) ≡ true = ground (arith, eq_iff text text) in rw e refl

-- Where no id stands twice, a request of a text is open for it and stands among the requests; a request that
-- stood there before is unchanged, and not an open one of the text with a smaller id.
pub find_or_create_request-IsFound :
    (text : String) (m : ℕ) (q : Request) (state : Requests)
    → IsDistinct state
    → get_request m state ≡ some q
    → IsFound text m q (find_or_create_request state text)
unfolding find_or_create_request
find_or_create_request-IsFound text m q state distinct there =
    elim (Option-cases (find_open text state)) [
      | inl nothing ↦
          let n = greatest_id state + 1 in
          let r = new_request text in
          let le = get_request-greatest_id m q state there in
          let apart : eqb n m ≡ false = ground arith in
          let self : eqb n n ≡ true = ground arith in
          let closed : is_open_for text q ≡ false = elim (Bool-cases (is_open_for text q)) [
            | inl fits ↦
                let bad = sym (ap (up_to m) nothing) ∙ find_open-up_to text m q state there fits in
                cc
            | inr shut ↦ shut
          ] in
          rw (nothing, find_or_create_request)
            (record {
              stands = get_request-put n n r state ∙ rw self refl;
              fits = new_request-fits text;
              kept = get_request-put n m r state ∙ rw apart there;
              first = rw closed refl;
            })
      | inr ((n, r), found) ↦
          let (stands, fits) : (get_request n state ≡ some r) × (is_open_for text r ≡ true) =
            subst (Stands text state) found (find_open-Stands text state distinct) in
          rw (found, find_or_create_request)
            (record {
              stands = stands;
              fits = fits;
              kept = there;
              first = elim (Bool-cases (is_open_for text q)) [
                | inl open_too ↦
                    let le =
                      sym (ap (up_to m) found) ∙ find_open-up_to text m q state there open_too in
                    rw (open_too, le) refl
                | inr shut ↦ rw shut refl
              ];
            })
    ]
