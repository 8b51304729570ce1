-- ===== src/Agents/Router/Numbers.antt =====
-- A written number is a text of digits.
use issuekit.Prelude.{ℕ, ◌≡◌, refl, true, arith}
use issuekit.Prelude.Decimal.{show, show-induction, show-not_empty}
use issuekit.Agents.Router.{is_number, all_chars, is_digit}

pub is_number-show : (n : ℕ) → is_number (show n) ≡ true
unfolding is_number all_chars
is_number-show n =
    let digits : all_chars is_digit (show n) ≡ true =
      show-induction (λ s. all_chars is_digit s ≡ true) (λ c s low high h. ground arith) n refl in
    rw (show-not_empty n, digits) refl
