-- ===== src/Platform/Decimal.antt =====
-- `String(n)` for the numbers that the program writes, and `Number(text)` of such a text.
pub mod Values
use Prim.Native.Char.{code}
use Prim.Native.String
use Prim.Native.String.{◌++◌}
use firemig.Prelude.{
  ℕ, zero, suc, ◌+◌, ◌-◌, ◌*◌, ◌/◌, ◌%◌, String, Bool, true, ◌&&◌, leb, ltb, ◌==◌, if◌then◌else◌,
}

abbrev digit : ℕ → String
digit d =
    if d == 0
    then "0"
    else if d == 1
    then "1"
    else if d == 2
    then "2"
    else if d == 3
    then "3"
    else if d == 4
    then "4"
    else if d == 5
    then "5"
    else if d == 6
    then "6"
    else if d == 7
    then "7"
    else if d == 8
    then "8"
    else "9"

-- The number `n` has at most `n + 1` digits, so that is fuel enough.
unfoldable digits_of : ℕ → ℕ → String
digits_of zero n = ""
digits_of (suc fuel) n =
    let shorter = digits_of fuel (n / 10) ++ digit (n % 10) in if ltb n 10 then digit n else shorter

unfoldable pub decimal : ℕ → String
unfolding digits_of
decimal n = digits_of (n + 1) n

-- `Number(text)` of a text of digits, behind those read before.
unfoldable pub value : ℕ → String → ℕ
value acc String.[] = acc
value acc (String.◌∷◌ c rest) = value (acc * 10 + (code c - b'0')) rest

abbrev is_digit : ℕ → Bool
is_digit c = leb b'0' c && leb c b'9'

-- /^\d*$/
unfoldable pub all_digits : String → Bool
all_digits String.[] = true
all_digits (String.◌∷◌ c rest) = is_digit (code c) && all_digits rest
