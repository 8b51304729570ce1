-- ===== src/Core/Token.antt =====
-- core.py and session.py: the tokens that name workers, repositories, machines and sessions.
use Prim.Native.Nat.{ℕ, zero, suc}
use Prim.Native.Char.{Char, code}
use Prim.Native.String.{String, [], ◌∷◌}
use mathlib.Core.Bool.{Bool, true, false, ◌&&◌, ◌||◌}
use mathlib.Core.Path.{◌≡◌, refl}
use mathlib.Core.Logic.{◌≢◌}
use native.Mathlib.Omega.{arith}
use text.Mathlib.Text.{◌==◌}
use issuekit.Prelude.{leb, eqb}
use issuekit.Prelude.Text.{is_space, rstrip, rstrip-cons, has_char}

-- [a-z0-9]
is_head : ℕ → Bool
is_head c = (leb b'a' c && leb c b'z') || (leb b'0' c && leb c b'9')

-- [a-z0-9_-]
is_tail : ℕ → Bool
unfolding is_head
is_tail c = is_head c || eqb c b'_' || eqb c b'-'

-- [a-z0-9_-]{0,n}, to the end of the text
tail_matches : ℕ → String → Bool
unfolding is_tail
tail_matches n [] = true
tail_matches zero (c ∷ s) = false
tail_matches (suc n) (c ∷ s) = is_tail (code c) && tail_matches n s

-- [a-z0-9][a-z0-9_-]{0,n}
unfoldable pub token_matches : ℕ → String → Bool
unfolding tail_matches
token_matches n [] = false
token_matches n (c ∷ s) = is_head (code c) && tail_matches n s

abbrev pub workflow_token_max_len : ℕ
workflow_token_max_len = 32

unfoldable pub is_valid_workflow_token : String → Bool
unfolding token_matches
is_valid_workflow_token value = value == "" || token_matches 31 value

unfoldable pub is_valid_session_token : String → Bool
unfolding token_matches
is_valid_session_token value = token_matches 199 value

-- A token that is there.
abbrev pub IsToken : String → Type 0
IsToken s = token_matches 31 s ≡ true

tail-not-has_char :
    (n k : ℕ) (s : String) → is_tail k ≡ false → tail_matches n s ≡ true → has_char k s ≡ false
unfolding tail_matches has_char
tail-not-has_char n k [] out h = refl
tail-not-has_char zero k (c ∷ s) out h = ground arith
tail-not-has_char (suc n) k (c ∷ s) out h = ground (arith, tail-not-has_char n k s out)

-- A token holds no character outside its alphabet.
token-not-has_char :
    (n k : ℕ) (s : String) → is_tail k ≡ false → token_matches n s ≡ true → has_char k s ≡ false
unfolding token_matches is_tail has_char
token-not-has_char n k [] out h = ground arith
token-not-has_char n k (c ∷ s) out h = ground (arith, tail-not-has_char n k s out)

pub token-no_dot : (n : ℕ) (s : String) → token_matches n s ≡ true → has_char b'.' s ≡ false
unfolding is_tail
token-no_dot n s h = token-not-has_char n b'.' s refl h

pub token-no_at : (n : ℕ) (s : String) → token_matches n s ≡ true → has_char b'@' s ≡ false
unfolding is_tail
token-no_at n s h = token-not-has_char n b'@' s refl h

pub token-ne-nil : (n : ℕ) (s : String) → token_matches n s ≡ true → s ≢ []
unfolding token_matches
token-ne-nil n [] h = cc
token-ne-nil n (c ∷ s) h = cc

tail-not_space : (c : ℕ) → is_tail c ≡ true → is_space c ≡ false
unfolding is_tail is_space
tail-not_space c h = ground arith

pub head-not_space :
    (n : ℕ) (c : Char) (s : String) → token_matches n (c ∷ s) ≡ true → is_space (code c) ≡ false
unfolding token_matches
head-not_space n c s h = tail-not_space (code c) (ground arith)

tail-rstrip : (n : ℕ) (s : String) → tail_matches n s ≡ true → rstrip s ≡ s
unfolding tail_matches rstrip
tail-rstrip n [] h = refl
tail-rstrip zero (c ∷ s) h = ground arith
tail-rstrip (suc n) (c ∷ s) h =
    rstrip-cons c s (tail-not_space (code c) (ground arith)) (tail-rstrip n s (ground arith))

-- Stripping leaves a token alone, at either end.
pub token-rstrip : (n : ℕ) (s : String) → token_matches n s ≡ true → rstrip s ≡ s
unfolding token_matches rstrip
token-rstrip n [] h = refl
token-rstrip n (c ∷ s) h = rstrip-cons c s (head-not_space n c s h) (tail-rstrip n s (ground arith))
