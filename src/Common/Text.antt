-- ===== src/Common/Text.antt =====
-- Text: template literals, decimal numerals, and the order of JavaScript's and SQLite's
-- comparisons of texts, by code points.
use Prim.Native.Nat.{ℕ, zero, suc, ◌/◌, ◌%◌}
use Prim.Native.String
use Prim.Native.String.{String, compare}
use mathlib.Core.Path.{◌≡◌, refl}
use mathlib.Core.Bool.{Bool}
use text.Mathlib.Text.{is_lt, is_le}
use carpe_os.Common.Tests.{if◌then◌else◌, ltb}

infixr 65 ◌<>◌
abbrev pub ◌<>◌ : String → String → String
s <> t = String.◌++◌ s t

-- `s < t` and `s <= t` on texts
abbrev pub text_lt : String → String → Bool
text_lt s t = is_lt (compare s t)

abbrev pub text_le : String → String → Bool
text_le s t = is_le (compare s t)

digit_text : ℕ → String
digit_text zero = "0"
digit_text (suc zero) = "1"
digit_text (suc (suc zero)) = "2"
digit_text (suc (suc (suc zero))) = "3"
digit_text (suc (suc (suc (suc zero)))) = "4"
digit_text (suc (suc (suc (suc (suc zero))))) = "5"
digit_text (suc (suc (suc (suc (suc (suc zero)))))) = "6"
digit_text (suc (suc (suc (suc (suc (suc (suc zero))))))) = "7"
digit_text (suc (suc (suc (suc (suc (suc (suc (suc zero)))))))) = "8"
digit_text _ = "9"

decimal_fuel : ℕ → ℕ → String
decimal_fuel zero n = ""
decimal_fuel (suc fuel) n =
    let rest = decimal_fuel fuel (n / 10) in
    if ltb n 10 then digit_text n else rest <> digit_text (n % 10)

-- `${n}`: a number has at most n + 1 decimal digits
unfoldable pub decimal : ℕ → String
unfolding decimal_fuel digit_text
decimal n = decimal_fuel (suc n) n

decimal_test : decimal 3600 ≡ "3600"
unfolding decimal
decimal_test = refl
