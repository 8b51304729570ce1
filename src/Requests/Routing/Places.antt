-- ===== src/Requests/Routing/Places.antt =====
-- Lists of targets by index: what replacing one does, and which indexes wait.
use issuekit.Prelude.{
  Ascending, Ascending-weaken, ℕ, zero, suc, ◌+◌, ◌<◌, ◌≤◌, ◌≡◌, refl, Bool, true, false, not, ◌&&◌,
  Option, none, some, List, [], ◌∷◌, if◌then◌else◌, is_empty, is_some, eqb, any, select, length,
  arith, ap, ◌∙◌, inl, inr, Bool-cases,
}
use issuekit.Prelude.Text.{strip}
use issuekit.Requests.State.{Target, ref_at}
use issuekit.Requests.Routing.{target_at, set_target, sent_refs, pending_from}

abbrev pub mem : ℕ → List ℕ → Bool
mem n xs = any (eqb n) xs

pub target_at-set :
    (i : ℕ) (new : Target) (targets : List Target) {stored : Target} (m : ℕ)
    → target_at i targets ≡ some stored
    → target_at m (set_target i new targets) ≡ (if eqb i m then some new else target_at m targets)
unfolding target_at set_target
target_at-set i new [] m h = cc
target_at-set zero new (t ∷ targets) zero h = refl
target_at-set zero new (t ∷ targets) (suc m) h = ground arith
target_at-set (suc i) new (t ∷ targets) zero h = ground arith
target_at-set (suc i) new (t ∷ targets) (suc m) h = ground (arith, target_at-set i new targets m h)

pub target_at-below :
    (n j : ℕ) (targets : List Target) {t : Target}
    → target_at n targets ≡ some t
    → j < n
    → (u : Target) × (target_at j targets ≡ some u)
unfolding target_at
target_at-below n j [] h lt = cc
target_at-below zero j (t ∷ targets) h lt = absurd (omega arith)
target_at-below (suc n) zero (t ∷ targets) h lt = (t, refl)
target_at-below (suc n) (suc j) (t ∷ targets) h lt = target_at-below n j targets h (omega arith)

pub mem-select :
    (test : ℕ → Bool) (n : ℕ) (xs : List ℕ) → mem n (select test xs) ≡ (mem n xs && test n)
mem-select test n [] = refl
mem-select test n (x ∷ xs) = elim (Bool-cases (eqb n x)) [
  | inl same ↦ let e : n ≡ x = ground arith in ground (arith, mem-select test n xs, ap test e)
  | inr other ↦ ground (arith, mem-select test n xs)
]

pub length-select : (test : ℕ → Bool) (xs : List ℕ) → length (select test xs) ≤ length xs
length-select test [] = omega arith
length-select test (x ∷ xs) = ground (arith, length-select test xs)

pub Ascending-select :
    (test : ℕ → Bool) (bound : ℕ) (xs : List ℕ)
    → Ascending bound xs
    → Ascending bound (select test xs)
Ascending-select test bound [] up = tt
Ascending-select test bound (x ∷ xs) (least, up) = elim (Bool-cases (test x)) [
  | inl kept ↦ rw kept (least, Ascending-select test (suc x) xs up)
  | inr dropped ↦ rw dropped (
      Ascending-weaken bound (suc x) (select test xs) (omega arith)
        (Ascending-select test (suc x) xs up))
]

pub Ascending-mem : (bound n : ℕ) (xs : List ℕ) → Ascending bound xs → mem n xs ≡ true → bound ≤ n
Ascending-mem bound n [] up m = cc
Ascending-mem bound n (x ∷ xs) (least, up) m = elim (Bool-cases (eqb n x)) [
  | inl same ↦ ground arith
  | inr other ↦ let rest = Ascending-mem (suc x) n xs up (ground arith) in omega arith
]

pub pending_from-Ascending : (k : ℕ) (targets : List Target) → Ascending k (pending_from k targets)
unfolding pending_from
pending_from-Ascending k [] = tt
pending_from-Ascending k (t ∷ targets) = elim (Bool-cases (is_empty (strip t.proposal_ref))) [
  | inl waits ↦ rw waits (omega arith, pending_from-Ascending (suc k) targets)
  | inr sent ↦ rw sent (
      Ascending-weaken k (suc k) (pending_from (suc k) targets) (omega arith)
        (pending_from-Ascending (suc k) targets))
]

mem-below : (bound n : ℕ) (xs : List ℕ) → n < bound → Ascending bound xs → mem n xs ≡ false
mem-below bound n [] lt up = refl
mem-below bound n (x ∷ xs) lt (least, up) = ground (arith, mem-below (suc x) n xs (omega arith) up)

ref_at-below :
    (k n : ℕ) (targets : List Target) → n < k → is_some (ref_at n (sent_refs k targets)) ≡ false
unfolding sent_refs ref_at
ref_at-below k n [] lt = refl
ref_at-below k n (t ∷ targets) lt = elim (Bool-cases (is_empty (strip t.proposal_ref))) [
  | inl waits ↦ rw waits (ref_at-below (suc k) n targets (omega arith))
  | inr sent ↦ rw sent (ground (arith, ref_at-below (suc k) n targets))
]

abbrev pub waits_at : Option Target → Bool
waits_at none = false
waits_at (some t) = is_empty (strip t.proposal_ref)

abbrev pub sent_at : Option Target → Bool
sent_at none = false
sent_at (some t) = not (is_empty (strip t.proposal_ref))

pub mem-pending_from :
    (k n : ℕ) (targets : List Target)
    → mem (k + n) (pending_from k targets) ≡ waits_at (target_at n targets)
unfolding pending_from target_at
mem-pending_from k n [] = refl
mem-pending_from k zero (t ∷ targets) = elim (Bool-cases (is_empty (strip t.proposal_ref))) [
  | inl waits ↦ rw waits (
      ground (
        arith,
        mem-below (suc k) (k + zero) (pending_from (suc k) targets) (omega arith)
            (pending_from-Ascending (suc k) targets),
      ))
  | inr sent ↦ rw sent (
      ground (
        arith,
        mem-below (suc k) (k + zero) (pending_from (suc k) targets) (omega arith)
            (pending_from-Ascending (suc k) targets),
      ))
]
mem-pending_from k (suc n) (t ∷ targets) =
    let e : k + suc n ≡ suc k + n = omega arith in
    let ih =
      ap (λ i. mem i (pending_from (suc k) targets)) e ∙ mem-pending_from (suc k) n targets in
    elim (Bool-cases (is_empty (strip t.proposal_ref))) [
      | inl waits ↦ rw waits (ground (arith, ih))
      | inr sent ↦ rw sent (ground (arith, ih))
    ]

pub ref_at-sent_refs :
    (k n : ℕ) (targets : List Target)
    → is_some (ref_at (k + n) (sent_refs k targets)) ≡ sent_at (target_at n targets)
unfolding sent_refs target_at ref_at
ref_at-sent_refs k n [] = refl
ref_at-sent_refs k zero (t ∷ targets) = elim (Bool-cases (is_empty (strip t.proposal_ref))) [
  | inl waits ↦ rw waits (ground (arith, ref_at-below (suc k) (k + zero) targets (omega arith)))
  | inr sent ↦ rw sent (ground (arith, ref_at-below (suc k) (k + zero) targets (omega arith)))
]
ref_at-sent_refs k (suc n) (t ∷ targets) =
    let e : k + suc n ≡ suc k + n = omega arith in
    let ih =
      ap (λ i. is_some (ref_at i (sent_refs (suc k) targets))) e
      ∙ ref_at-sent_refs (suc k) n targets in
    elim (Bool-cases (is_empty (strip t.proposal_ref))) [
      | inl waits ↦ rw waits (ground (arith, ih))
      | inr sent ↦ rw sent (ground (arith, ih))
    ]

pub mem-pending :
    (n : ℕ) (targets : List Target)
    → mem n (pending_from 0 targets) ≡ waits_at (target_at n targets)
mem-pending n targets =
    let e : n ≡ 0 + n = omega arith in
    ap (λ m. mem m (pending_from 0 targets)) e ∙ mem-pending_from 0 n targets

pub length-pending_from :
    (k : ℕ) (targets : List Target) → length (pending_from k targets) ≤ length targets
unfolding pending_from
length-pending_from k [] = omega arith
length-pending_from k (t ∷ targets) = ground (arith, length-pending_from (suc k) targets)
