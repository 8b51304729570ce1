-- ===== src/Core/Address/Laws.antt =====
-- Parsing target addresses and writing them back.
use Prim.Native.String.{◌++◌}
use text.Mathlib.TextLemmas.{append_assoc}
use issuekit.Prelude.{
  String, ◌≡◌, refl, true, some, arith, eq_iff, if◌then◌else◌, ok, is_empty, inl, inr, Option-cases,
}
use issuekit.Prelude.Text.{strip, cut, cut-append, eq_append-cut}
use issuekit.Core.Token.{IsToken, is_valid_workflow_token, token-no_dot, token-ne-nil}
use issuekit.Core.WorkerKey.{worker_key, qualified_worker_key}
use issuekit.Core.WorkerKey.Laws.{dot-cons, at-cons, key-no_at, stripped, qualified-ne-nil}
use issuekit.Core.Address.{TargetAddress, unqualified_address, parse_target_address}

-- The three forms of an address.
abbrev pub print_address : TargetAddress → String
print_address a =
    if is_empty a.worker
    then a.repo
    else if is_empty a.machine
    then worker_key a.repo a.worker
    else qualified_worker_key a.machine a.repo a.worker

module _ (r w : String) (hr : IsToken r) (hw : IsToken w) where
  unqualified_address-key :
      (m : String)
      → unqualified_address (w ++ ("." ++ r)) m ≡ ok (record { repo = r; worker = w; machine = m })
  unfolding unqualified_address is_valid_workflow_token
  unqualified_address-key m = rw (dot-cons r) (
      ground (
        arith,
        cut-append b'.' "." w r refl (token-no_dot 31 w hw),
        token-no_dot 31 r hr,
        eq_iff w "",
        eq_iff r "",
        token-ne-nil 31 r hr,
        token-ne-nil 31 w hw,
      ))

  first_cut : (m : String) → cut b'@' (w ++ ("." ++ (r ++ ("@" ++ m)))) ≡ some (w ++ ("." ++ r), m)
  first_cut m =
      rw
        (
          at-cons m,
          ← append_assoc "." r (String.◌∷◌ "@" m),
          ← append_assoc w ("." ++ r) (String.◌∷◌ "@" m),
        )
        (cut-append b'@' "@" (w ++ ("." ++ r)) m refl (key-no_at r w hr hw))

  -- A qualified key made of valid tokens is accepted as an address, and its parts come back.
  pub parse_target_address-qualified :
      (m : String)
      → IsToken m
      → parse_target_address (qualified_worker_key m r w)
        ≡ ok (record { repo = r; worker = w; machine = m })
  unfolding parse_target_address qualified_worker_key is_valid_workflow_token
  parse_target_address-qualified m hm = ground (
    arith,
    stripped r w hr hw m hm,
    first_cut m,
    unqualified_address-key m,
    eq_iff m "",
    token-ne-nil 31 m hm,
    qualified-ne-nil r w hr hw m,
    eq_iff (w ++ ("." ++ (r ++ ("@" ++ m)))) "",
  )

unqualified_address-print :
    (text m : String) (a : TargetAddress)
    → unqualified_address text m ≡ ok a
    → (a.machine ≡ m)
      × (text ≡ (if is_empty a.worker then a.repo else worker_key a.repo a.worker))
      × (is_empty a.worker ≡ true → is_empty m ≡ true)
unfolding unqualified_address worker_key
unqualified_address-print text m a h = elim (Option-cases (cut b'.' text)) [
  | inl whole ↦ ground (arith, eq_iff m "")
  | inr ((w, r), split) ↦
      ground (arith, eq_iff w "", dot-cons r, eq_append-cut b'.' "." text w r refl split)
]

key-at : (w r m : String) → qualified_worker_key m r w ≡ worker_key r w ++ ("@" ++ m)
unfolding qualified_worker_key worker_key
key-at w r m = rw (append_assoc w ("." ++ r) ("@" ++ m), append_assoc "." r ("@" ++ m))

-- An address that is accepted is the stripped text, taken apart.
pub parse_target_address-print :
    (v : String) (a : TargetAddress) → parse_target_address v ≡ ok a → print_address a ≡ strip v
unfolding parse_target_address
parse_target_address-print v a h = elim (Option-cases (cut b'@' (strip v))) [
  | inl whole ↦
      let (machine, printed, _) = unqualified_address-print (strip v) "" a (ground arith) in
      ground (arith, eq_iff a.machine "")
  | inr ((text, m), split) ↦
      let (machine, printed, qualified) = unqualified_address-print text m a (ground arith) in
      ground (
        arith,
        eq_iff m "",
        at-cons m,
        eq_append-cut b'@' "@" (strip v) text m refl split,
        key-at a.worker a.repo m,
      )
]
