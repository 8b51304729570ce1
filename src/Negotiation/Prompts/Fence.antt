-- ===== src/Negotiation/Prompts/Fence.antt =====
-- The fence around a contract cannot be closed by the contract.
use Prim.Native.Nat.{max}
use Prim.Native.Char.{code}
use Prim.Native.String.{◌++◌}
use text.Mathlib.TextLemmas.{nil-append, cons-append}
use issuekit.Prelude.{ℕ, zero, suc, ◌+◌, ◌≤◌, ◌<◌, String, ◌≡◌, refl, if◌then◌else◌, eqb, arith}
use issuekit.Negotiation.Prompts.{longest_run, ticks, markdown_fence_for}

longest_run_mono : (l c : ℕ) (s : String) → l ≤ longest_run l c s
unfolding longest_run
longest_run_mono l c String.[] = omega arith
longest_run_mono l c (String.◌∷◌ x s) = ground (
  arith,
  longest_run_mono (if eqb (code x) b'`' then max l (c + 1) else l)
      (if eqb (code x) b'`' then c + 1 else 0) s,
)

longest_run-ticks : (l c n : ℕ) (s : String) → c ≤ l → c + n ≤ longest_run l c (ticks n ++ s)
unfolding longest_run ticks
longest_run-ticks l c zero s h = rw nil-append (omega (arith, h, longest_run_mono l c s))
longest_run-ticks l c (suc n) s h =
    rw cons-append (omega (arith, longest_run-ticks (max l (c + 1)) (c + 1) n s (omega arith)))

longest_run-append : (l c n : ℕ) (a b : String) → c ≤ l → n ≤ longest_run l c (a ++ (ticks n ++ b))
unfolding longest_run
longest_run-append l c n String.[] b h = rw nil-append (omega (arith, longest_run-ticks l c n b h))
longest_run-append l c n (String.◌∷◌ x a) b h = rw cons-append (
    longest_run-append (if eqb (code x) b'`' then max l (c + 1) else l)
      (if eqb (code x) b'`' then c + 1 else 0) n a b (ground arith))

-- Whatever run of backticks stands in a contract, the fence around the contract is a longer one, of
-- three backticks at least.
pub markdown_fence_for-longer :
    (a b : String) (n : ℕ)
    → (m : ℕ) × (markdown_fence_for (a ++ (ticks n ++ b)) ≡ ticks m) × (3 ≤ m) × (n < m)
unfolding markdown_fence_for
markdown_fence_for-longer a b n =
    let run = longest_run-append 0 0 n a b (omega arith) in
    (max 3 (longest_run 0 0 (a ++ (ticks n ++ b)) + 1), refl, omega arith, omega (arith, run))
