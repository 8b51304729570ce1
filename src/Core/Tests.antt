-- ===== src/Core/Tests.antt =====
-- Worker keys and addresses, on concrete texts.
use issuekit.Prelude.{◌≡◌, refl, true, ◌&&◌, ok, ◌==◌}
use issuekit.Prelude.Text.{strip, cut, has_char}
use issuekit.Core.Token.{IsToken, token_matches, is_valid_workflow_token}
use issuekit.Core.WorkerKey.{worker_keys_match, qualified_worker_key}
use issuekit.Core.WorkerKey.Laws.{worker_keys_match-qualified-qualified}
use issuekit.Core.Address.{TargetAddress, parse_target_address, unqualified_address}
use issuekit.Core.Address.Laws.{
  print_address, parse_target_address-qualified, parse_target_address-print,
}

repo-IsToken : IsToken "issuekit"
unfolding token_matches
repo-IsToken = refl

worker-IsToken : IsToken "codex"
unfolding token_matches
worker-IsToken = refl

machine-IsToken : IsToken "laptop-2"
unfolding token_matches
machine-IsToken = refl

worker_keys_match-qualified-qualified_example :
    worker_keys_match true
      (qualified_worker_key "laptop-2" "issuekit" "codex")
      (qualified_worker_key "codex" "issuekit" "codex")
    ≡ ("codex" == "codex" && "issuekit" == "issuekit" && "laptop-2" == "codex")
worker_keys_match-qualified-qualified_example =
    worker_keys_match-qualified-qualified "issuekit" "codex" "issuekit" "codex" repo-IsToken
      worker-IsToken repo-IsToken worker-IsToken true "laptop-2" "codex" machine-IsToken
      worker-IsToken

parse_target_address-qualified_example :
    parse_target_address (qualified_worker_key "laptop-2" "issuekit" "codex")
    ≡ ok (record { repo = "issuekit"; worker = "codex"; machine = "laptop-2" })
parse_target_address-qualified_example =
    parse_target_address-qualified "issuekit" "codex" repo-IsToken worker-IsToken "laptop-2"
      machine-IsToken

abbrev address : TargetAddress
address = record { repo = "issuekit"; worker = "codex"; machine = "laptop-2" }

address-parsed : parse_target_address " codex.issuekit@laptop-2 " ≡ ok address
unfolding parse_target_address unqualified_address is_valid_workflow_token token_matches strip cut
    has_char
address-parsed = refl

parse_target_address-print_example : print_address address ≡ strip " codex.issuekit@laptop-2 "
parse_target_address-print_example =
    parse_target_address-print " codex.issuekit@laptop-2 " address address-parsed
