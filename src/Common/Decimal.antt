-- ===== src/Common/Decimal.antt =====
-- Decimal numbers as package strconv reads and writes them, and integers.
use Prim.Native.Nat.{ℕ, zero, suc, ◌+◌, ◌-◌, ◌*◌, ◌/◌, ◌%◌, ◌^◌}
use mathlib.Core.Bool.{Bool, ◌&&◌, ◌||◌, not}
use mathlib.Core.Option.{Option, none, some}
use mathlib.Core.List.{[], ◌∷◌}
use package_firewall.Common.Tests.{◌==◌, ltb, leb, if◌then◌else◌}
use package_firewall.Common.Text.{Text, is_empty}
use package_firewall.Common.Lists.{any}

pub data ℤ : Type 0 where
  pos negsuc : ℕ → ℤ

abbrev pub is_digit : ℕ → Bool
is_digit c = leb b'0' c && leb c b'9'

-- The value of a text of digits, after `n`.
unfoldable pub digits_from : ℕ → Text → ℕ
digits_from n [] = n
digits_from n (c ∷ s) = digits_from (n * 10 + (c - b'0')) s

-- strconv.ParseUint(s, 10, bits); `none` is its error
unfoldable pub parse_uint : ℕ → Text → Option ℕ
unfolding digits_from
parse_uint bits s =
    if is_empty s || any (λ c. not (is_digit c)) s
    then none
    else if ltb (digits_from 0 s) (2 ^ bits)
    then some (digits_from 0 s)
    else none

abbrev negated : Option ℕ → Option ℤ
negated none = none
negated (some zero) = some (pos 0)
negated (some (suc n)) = some (negsuc n)

abbrev positive : Option ℕ → Option ℤ
positive none = none
positive (some n) = some (pos n)

-- strconv.ParseInt(s, 10, bits); the least number of that width is left out
unfoldable pub parse_int : ℕ → Text → Option ℤ
unfolding parse_uint
parse_int bits [] = none
parse_int bits (c ∷ s) =
    if c == b'-'
    then negated (parse_uint (bits - 1) s)
    else if c == b'+'
    then positive (parse_uint (bits - 1) s)
    else positive (parse_uint (bits - 1) (c ∷ s))

-- The digits of `n` in front of a text; the fuel bounds their number.
unfoldable pub format_digits : ℕ → ℕ → Text → Text
format_digits zero n s = s
format_digits (suc fuel) n s =
    let rest = format_digits fuel (n / 10) ((b'0' + n % 10) ∷ s) in
    if ltb n 10 then (b'0' + n) ∷ s else rest

-- strconv.FormatInt(n, 10) for n of at most 19 digits
unfoldable pub format_decimal : ℕ → Text
unfolding format_digits
format_decimal n = format_digits 19 n []
