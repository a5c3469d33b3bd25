-- ===== src/Prelude/Decimal.antt =====
-- strconv.FormatInt(n, 10) at a positive number.
use Prim.Native.Char.{Char}
use hquizlet_platform.Prelude.{ℕ, zero, suc, ◌/◌, ◌%◌, String, ◌≡◌, refl, ltb, ◌==◌, if◌then◌else◌}

-- The character of a decimal digit.
abbrev pub digit_char : ℕ → Char
digit_char d =
    if d == 0
    then "0"
    else if d == 1
    then "1"
    else if d == 2
    then "2"
    else if d == 3
    then "3"
    else if d == 4
    then "4"
    else if d == 5
    then "5"
    else if d == 6
    then "6"
    else if d == 7
    then "7"
    else if d == 8
    then "8"
    else "9"

-- The digits of `n` in front of `rest`.
unfoldable pub format_digits : ℕ → ℕ → String → String
format_digits zero n rest = rest
format_digits (suc fuel) n rest =
    let front = format_digits fuel (n / 10) (String.◌∷◌ (digit_char (n % 10)) rest) in
    if ltb n 10 then String.◌∷◌ (digit_char n) rest else front

unfoldable pub format_int : ℕ → String
unfolding format_digits
format_int n = format_digits (suc n) n ""

format_ten : format_int 1250 ≡ "1250"
unfolding format_int
format_ten = refl
