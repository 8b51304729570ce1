-- ===== src/Issues/Server/Invariant.antt =====
-- About the operations of the server in testing/issues.py: the order of its rows, and what a call changes.
use mathlib.Core.Path.{subst}
use mathlib.Core.Bool.{false≢true}
use issuekit.Prelude.{
  All, Bool-cases, inl, inr, ◌⊎◌, eqb, arith, eqb_iff, ℕ, ◌<◌, ◌≡◌, ◌≢◌, Bool, true, some, List, [],
  ◌∷◌, ◌∙◌, sym, ap,
}
use issuekit.Issues.Row.{Issue}
use issuekit.Issues.Server.{FakeIssueSurface, lookup}
use issuekit.Issues.Server.Rows.{IsKeyed, lookup-store, store-IsKeyed, lookup-id}
use issuekit.Issues.Server.Op.{
  KeepsId, Op, run_op, run_ops, Effect, SameRows, unchanged, wrote, created,
}
use issuekit.Issues.Server.Effects.{run_op-Effect}

-- A server with its rows in order: a row has its key as its id, keys stand once, and the next id
-- is above every id.
pub record IsServer (s : FakeIssueSurface) : Type 0 where
  pub keyed : IsKeyed s.issues
  pub below : (n : ℕ) (i : Issue) → lookup n s.issues ≡ some i → n < s.next_id

Effect-IsServer :
    {K : Type 0} {s : FakeIssueSurface} {r : Bool × FakeIssueSurface}
    → K
    → Effect K s r
    → IsServer s
    → IsServer r.1
Effect-IsServer k (unchanged same) h = record {
  keyed = subst IsKeyed (sym same.issues) h.keyed;
  below = λ n i found. rw same.next_id (h.below n i (rw same.issues at found));
}
Effect-IsServer {s = s} k (wrote n old new found id issues next_id) h = record {
  keyed =
      subst IsKeyed (sym issues)
        (store-IsKeyed n new s.issues (id k ∙ lookup-id n s.issues h.keyed found) h.keyed);
  below = λ m i there.
      let bound = h.below n old found in
      let old_bound = h.below m i in
      rw next_id (ground (arith, lookup-store n m new s.issues, eqb_iff n m));
}
Effect-IsServer {s = s} k (created new id issues next_id) h = record {
  keyed = subst IsKeyed (sym issues) (store-IsKeyed s.next_id new s.issues id h.keyed);
  below = λ m i there.
      let old_bound = h.below m i in
      rw next_id (ground (arith, lookup-store s.next_id m new s.issues, eqb_iff s.next_id m));
}

-- From a server that is in order (a row has its key as its id, keys stand once, the next id is above
-- every id), any sequence of operations leads to one that is in order, if no update sends another id than
-- that of its issue.
pub run_ops-IsServer :
    (ops : List Op) (s : FakeIssueSurface) → All KeepsId ops → IsServer s → IsServer (run_ops ops s)
unfolding run_ops
run_ops-IsServer [] s all h = h
run_ops-IsServer (op ∷ ops) s (one, all) h =
    run_ops-IsServer ops (run_op op s).1 all (Effect-IsServer one (run_op-Effect op s h.keyed) h)

Effect-raised :
    {K : Type 0} {s : FakeIssueSurface} {r : Bool × FakeIssueSurface}
    → Effect K s r
    → r.0 ≡ true
    → SameRows s r.1
Effect-raised (unchanged same) e = same
Effect-raised (wrote n old new found id issues next_id) e = absurd (false≢true e)
Effect-raised (created new id issues next_id) e = absurd (false≢true e)

-- An operation that raises, on a server whose rows are in order, leaves its rows and its next id as
-- they were.
pub run_op-raised :
    (op : Op) (s : FakeIssueSurface)
    → IsKeyed s.issues
    → (run_op op s).0 ≡ true
    → ((run_op op s).1.issues ≡ s.issues) × ((run_op op s).1.next_id ≡ s.next_id)
run_op-raised op s h e =
    let same = Effect-raised (run_op-Effect op s h) e in (same.issues, same.next_id)

Effect-frame :
    {K : Type 0} {s : FakeIssueSurface} {r : Bool × FakeIssueSurface}
    → Effect K s r
    → (n : ℕ) × ((m : ℕ) → n ≢ m → lookup m r.1.issues ≡ lookup m s.issues)
Effect-frame (unchanged same) = (0, λ m other. ap (lookup m) same.issues)
Effect-frame {s = s} (wrote n old new found id issues next_id) = (
  n,
  λ m other. ap (lookup m) issues ∙ ground (arith, lookup-store n m new s.issues, eqb_iff n m),
)
Effect-frame {s = s} (created new id issues next_id) = (
  s.next_id,
  λ m other.
      ap (lookup m) issues
      ∙ ground (arith, lookup-store s.next_id m new s.issues, eqb_iff s.next_id m),
)

-- An operation on a server whose rows are in order changes one row at most: of two ids, one has the
-- issue that it had, or none as before.
pub run_op-frame :
    (op : Op) (s : FakeIssueSurface) (m k : ℕ)
    → IsKeyed s.issues
    → m ≢ k
    → (lookup m (run_op op s).1.issues ≡ lookup m s.issues)
      ⊎ (lookup k (run_op op s).1.issues ≡ lookup k s.issues)
run_op-frame op s m k h apart =
    let (n, others) = Effect-frame (run_op-Effect op s h) in
    elim (Bool-cases (eqb n m)) [
      | inl same ↦
          let here : n ≡ m = (eqb_iff n m).0 same in inr (others k (λ p. apart (sym here ∙ p)))
      | inr other ↦ inl (others m (λ p. ground (arith)))
    ]
