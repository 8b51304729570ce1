-- ===== src/Negotiation/Prompts.antt =====
-- negotiation/prompts.py: the bodies of the two issues that a finalized negotiation opens.
pub mod Fence
use Prim.Native.Nat.{max}
use Prim.Native.Char.{code}
use Prim.Native.String
use issuekit.Prelude.{
  ℕ, zero, suc, ◌+◌, String, Option, none, some, List, [], ◌∷◌, ◌++◌, if◌then◌else◌, eqb, is_empty,
}
use issuekit.Prelude.Text.{join}

-- The loop over the characters: the longest run of backticks, and the one that ends here.
unfoldable pub longest_run : ℕ → ℕ → String → ℕ
longest_run longest current String.[] = longest
longest_run longest current (String.◌∷◌ c content) =
    longest_run (if eqb (code c) b'`' then max longest (current + 1) else longest)
      (if eqb (code c) b'`' then current + 1 else 0) content

-- `"`" * n`
unfoldable pub ticks : ℕ → String
ticks zero = String.[]
ticks (suc n) = String.◌∷◌ "`" (ticks n)

unfoldable pub markdown_fence_for : String → String
markdown_fence_for content = ticks (max 3 (longest_run 0 0 content + 1))

origin_line : Option String → List String
origin_line none = []
origin_line (some ref) = if is_empty ref then [] else String.◌++◌ "- Originating issue: " ref ∷ []

pub provider_issue_body : String → Option String → String → String → String
provider_issue_body thread_id origin_issue_ref consumer_issue_ref contract = join "\n" (
    ("## Implementation Task"
      ∷ ""
      ∷ "Implement the contract this project owns and now exposes."
      ∷ ""
      ∷ "## Links"
      ∷ ""
      ∷ String.◌++◌ "- Negotiation thread: " thread_id
      ∷ String.◌++◌ "- Consumer issue: " consumer_issue_ref
      ∷ origin_line origin_issue_ref)
    ++ ""
      ∷ "## Agreed Contract"
      ∷ ""
      ∷ markdown_fence_for contract
      ∷ contract
      ∷ markdown_fence_for contract
      ∷ ""
      ∷ "## Acceptance Criteria"
      ∷ ""
      ∷ "- The contract behavior described in the agreed contract is implemented."
      ∷ "- The contract is covered by focused tests."
      ∷ "- Any documented request/response shape remains compatible with the consumer issue."
      ∷ [])

pub consumer_issue_body : String → Option String → String → String → String
consumer_issue_body thread_id origin_issue_ref provider_issue_ref contract = join "\n" (
    ("## Implementation Task"
      ∷ ""
      ∷ "Integrate this project against the agreed contract."
      ∷ ""
      ∷ "## Links"
      ∷ ""
      ∷ String.◌++◌ "- Negotiation thread: " thread_id
      ∷ String.◌++◌ "- Provider issue: " provider_issue_ref
      ∷ origin_line origin_issue_ref)
    ++ ""
      ∷ "## Agreed Contract"
      ∷ ""
      ∷ markdown_fence_for contract
      ∷ contract
      ∷ markdown_fence_for contract
      ∷ ""
      ∷ "## Acceptance Criteria"
      ∷ ""
      ∷ "- The integration consumes the agreed contract."
      ∷ "- Behavior from the originating issue is covered."
      ∷ "- The implementation handles provider errors or unavailable data clearly."
      ∷ [])
