-- ===== src/Negotiation/Thread.antt =====
-- negotiation/thread.py: what a thread of entries amounts to. SHA-256 is the parameter `sha256`.
pub mod Agreements
pub mod Freeze
use Prim.Native.Char.{code}
use Prim.Native.String
use issuekit.Prelude.{
  ℕ, String, Bool, true, false, not, ◌&&◌, ◌||◌, Option, none, some, List, [], ◌∷◌, if◌then◌else◌,
  ltb, leb, is_empty, Result, ok, err, workflow, value_error, guard, ◌>>=◌, ◌>>◌, any, last?,
  length, ◌==◌, map,
}
use issuekit.Prelude.Dict.{put}
use issuekit.Prelude.Text.{strip, is_space, cut}
use issuekit.Negotiation.Model.{Verdict, ThreadStatus, NegotiationEntry, is_agree, is_blocked}

pub data Outcome : Type 0 where
  negotiating agreed blocked escalate : Outcome

abbrev pub provider_side : String
provider_side = "provider"

abbrev pub consumer_side : String
consumer_side = "consumer"

-- The word that a text begins with, and the words after it, for `str.split()`.
abbrev flush : String → List String → List String
flush word words = if is_empty word then words else word ∷ words

split_from : String → String × List String
unfolding is_space
split_from String.[] = ("", [])
split_from (String.◌∷◌ c s) =
    let (word, words) = split_from s in
    if is_space (code c) then ("", flush word words) else (String.◌∷◌ c word, words)

-- `" ".join(words)`
join_words : List String → String
join_words [] = ""
join_words (word ∷ []) = word
join_words (word ∷ next ∷ words) = String.◌++◌ word (String.◌++◌ " " (join_words (next ∷ words)))

-- `" ".join(contract.split()).strip()`
unfoldable pub normalized : String → String
unfolding split_from join_words
normalized contract =
    let (word, words) = split_from contract in strip (join_words (flush word words))

-- `thread[:-1]`
abbrev pub earlier : List NegotiationEntry → List NegotiationEntry
earlier [] = []
earlier (entry ∷ []) = []
earlier (entry ∷ next ∷ thread) = entry ∷ earlier (next ∷ thread)

abbrev pub option_eq : Option String → Option String → Bool
option_eq (some a) (some b) = a == b
option_eq none none = true
option_eq _ _ = false

-- `if entry.contract` for the newest such entry
unfoldable pub latest_contract : List NegotiationEntry → Option String
latest_contract [] = none
latest_contract (entry ∷ later) = elim (latest_contract later) [
  | some contract ↦ some contract
  | none ↦ elim entry.contract [
    | none ↦ none
    | some contract ↦ if is_empty contract then none else some contract
  ]
]

unfoldable pub other_side : String → Result String
other_side side =
    if side == provider_side
    then ok consumer_side
    else if side == consumer_side
    then ok provider_side
    else err value_error

unfoldable pub next_side : List NegotiationEntry → Result String
unfolding other_side
next_side thread = elim (last? thread) [
  | none ↦ err value_error
  | some entry ↦ other_side entry.side
]

abbrev pub is_side : String → Bool
is_side side = side == provider_side || side == consumer_side

unfoldable pub require_supported_thread : List NegotiationEntry → Result (Unit {0})
require_supported_thread thread =
    guard (not (any (λ entry. not (is_side entry.side)) thread)) (workflow "unsupported_thread")

-- `len(agreements) >= 2 and len(set(agreements.values())) == 1`
abbrev pub unanimous : List (String × String) → Bool
unanimous [] = false
unanimous ((side, hash) ∷ []) = false
unanimous ((side, hash) ∷ next ∷ others) =
    not (any (λ (agreement : String × String). not (agreement.1 == hash)) (next ∷ others))

abbrev pub agree_outcome : Bool → Bool → Outcome
agree_outcome true _ = agreed
agree_outcome false true = agreed
agree_outcome false false = negotiating

-- `agreements[side] = hash`, for an agree entry whose contract has a hash
abbrev pub agreed_on :
    Option String → Bool → String → List (String × String) → List (String × String)
agreed_on (some hash) true side agreements = put side hash agreements
agreed_on _ _ side agreements = agreements

module _ (sha256 : String → String) where
  unfoldable pub contract_hash : Option String → Option String
  contract_hash none = none
  contract_hash (some contract) =
      if is_empty (normalized contract) then none else some (sha256 (normalized contract))

  -- An entry of the other side with the contract of this hash.
  abbrev pub is_counterpart : String → String → NegotiationEntry → Bool
  is_counterpart side hash entry =
      not (entry.side == side) && option_eq (contract_hash entry.contract) (some hash)

  abbrev pub agree_matches : List NegotiationEntry → NegotiationEntry → Bool
  agree_matches thread latest = elim (contract_hash latest.contract) [
    | none ↦ false
    | some hash ↦ is_agree latest.verdict && any (is_counterpart latest.side hash) (earlier thread)
  ]

  unfoldable pub latest_agree_matches_counterpart : List NegotiationEntry → Bool
  latest_agree_matches_counterpart thread = elim (last? thread) [
    | none ↦ false
    | some latest ↦ agree_matches thread latest
  ]

  -- The body of the loop that fills `agreements`.
  abbrev pub agree_step : List (String × String) → NegotiationEntry → List (String × String)
  agree_step agreements entry =
      agreed_on (contract_hash entry.contract) (is_agree entry.verdict) entry.side agreements

  unfoldable pub agreements_from :
      List (String × String) → List NegotiationEntry → List (String × String)
  agreements_from agreements [] = agreements
  agreements_from agreements (entry ∷ thread) = agreements_from (agree_step agreements entry) thread

  unfoldable pub evaluate_convergence : List NegotiationEntry → Outcome
  evaluate_convergence thread =
      if any (λ entry. is_blocked entry.verdict) thread
      then blocked
      else agree_outcome (latest_agree_matches_counterpart thread)
          (unanimous (agreements_from [] thread))

  abbrev verdict_value : Verdict → String
  verdict_value Verdict.propose = "propose"
  verdict_value Verdict.counter = "counter"
  verdict_value Verdict.agree = "agree"
  verdict_value Verdict.blocked = "blocked"

  abbrev negotiating_refusal : List NegotiationEntry → NegotiationEntry → Option String
  negotiating_refusal thread latest =
      if not (is_agree latest.verdict)
      then some (
          String.◌++◌ "latest verdict is "
            (String.◌++◌ (verdict_value latest.verdict) ", not agree"))
      else if option_eq (contract_hash latest.contract) none
      then some "latest agree turn has no contract"
      else if not (any (λ entry. not (entry.side == latest.side)) (earlier thread))
      then some "no counterpart turn exists"
      else if latest_agree_matches_counterpart thread
      then none
      else some "latest agree contract does not match a counterpart contract"

  unfoldable pub finalize_refusal_reason : ThreadStatus → List NegotiationEntry → Option String
  finalize_refusal_reason ThreadStatus.agreed thread = none
  finalize_refusal_reason ThreadStatus.blocked thread = some "thread is blocked"
  finalize_refusal_reason status thread = elim (last? thread) [
    | none ↦ some "thread has no entries"
    | some latest ↦
        if any (λ entry. is_blocked entry.verdict) thread
        then some "at least one turn is blocked"
        else negotiating_refusal thread latest
  ]
