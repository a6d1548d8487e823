-- ===== src/Base/Decimal.antt =====
-- `to_string` of unsigned and signed integers, `str::parse` of unsigned ones, and the reading of a
-- stored number. The laws are in the child.
pub mod Laws
use Prim.Native.Nat.{ℕ, zero, suc, ◌+◌, ◌-◌, ◌*◌, ◌/◌, ◌%◌}
use mathlib.Core.List.{List, [], ◌∷◌}
use mathlib.Core.Option.{Option, none, some}
use mathlib.Core.Bool.{Bool, true, false, ◌&&◌}
use internal_ai_gateway.Base.Tests.{ltb, leb, ◌==◌, if◌then◌else◌}
use internal_ai_gateway.Base.Texts.{Text}
use internal_ai_gateway.Base.Int.{ℤ, pos, negsuc}

-- The digits of `n` before `acc`. The fuel bounds the number of digits.
digits : ℕ → ℕ → Text → Text
digits zero n acc = acc
digits (suc f) n acc =
    let rest = digits f (n / 10) ((b'0' + n % 10) ∷ acc) in
    if ltb n 10 then (b'0' + n) ∷ acc else rest

unfoldable pub to_string : ℕ → Text
unfolding digits
to_string n = digits (suc n) n []

abbrev is_digit : ℕ → Bool
is_digit c = leb b'0' c && leb c b'9'

-- The value of the digits after those that gave `acc`; `none` past `bound` or at another character.
parse_digits : ℕ → ℕ → Text → Option ℕ
parse_digits bound acc [] = some acc
parse_digits bound acc (c ∷ cs) =
    let rest = parse_digits bound (acc * 10 + (c - b'0')) cs in
    if is_digit c && leb (acc * 10 + (c - b'0')) bound then rest else none

-- `parse` of an unsigned type with the largest value `bound`; one plus sign may lead.
unfoldable pub parse_uint : ℕ → Text → Option ℕ
unfolding parse_digits
parse_uint bound [] = none
parse_uint bound (c ∷ []) = parse_digits bound 0 (c ∷ [])
parse_uint bound (c ∷ d ∷ cs) =
    if c == b'+' then parse_digits bound 0 (d ∷ cs) else parse_digits bound 0 (c ∷ d ∷ cs)

-- `to_string` of a signed integer.
unfoldable pub int_to_string : ℤ → Text
unfolding to_string
int_to_string (pos n) = to_string n
int_to_string (negsuc n) = b'-' ∷ to_string (suc n)

-- The value of a text of digits.
value : ℕ → Text → ℕ
value acc [] = acc
value acc (c ∷ cs) = value (acc * 10 + (c - b'0')) cs

abbrev negative : ℕ → ℤ
negative zero = pos 0
negative (suc n) = negsuc n

-- The integer that a text of digits with an optional minus sign stands for.
unfoldable pub integer : Text → ℤ
unfolding value
integer [] = pos 0
integer (c ∷ cs) = if c == b'-' then negative (value 0 cs) else pos (value 0 (c ∷ cs))
