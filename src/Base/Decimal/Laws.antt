-- ===== src/Base/Decimal/Laws.antt =====
-- A printed number is read back, by `parse` and as a stored number.
use Prim.Native.Nat.{ℕ, zero, suc, ◌+◌, ◌/◌, ◌%◌, ◌≤◌, ◌<◌}
use mathlib.Core.Path.{◌≡◌, refl, sym, ap, ◌∙◌}
use mathlib.Core.List.{[], ◌∷◌}
use mathlib.Core.Option.{some}
use mathlib.Core.Logic.{inl, inr}
use native.Mathlib.Omega.{arith}
use internal_ai_gateway.Base.Tests.{ltb, Bool-cases}
use internal_ai_gateway.Base.Texts.{Text}
use internal_ai_gateway.Base.Int.{ℤ, pos, negsuc, pos_part}
use internal_ai_gateway.Base.Decimal.{
  digits, to_string, parse_digits, parse_uint, value, negative, integer, int_to_string,
}

parse_digits-digits :
    (bound f n : ℕ) (acc : Text)
    → n < f
    → n ≤ bound
    → parse_digits bound 0 (digits f n acc) ≡ parse_digits bound n acc
unfolding digits parse_digits
parse_digits-digits bound zero n acc h le = elim h [ ]
parse_digits-digits bound (suc f) n acc h le =
    ground (arith, parse_digits-digits bound f (n / 10) ((b'0' + n % 10) ∷ acc))

value-digits : (f n : ℕ) (acc : Text) → n < f → value 0 (digits f n acc) ≡ value n acc
unfolding digits value
value-digits zero n acc h = elim h [ ]
value-digits (suc f) n acc h = ground (arith, value-digits f (n / 10) ((b'0' + n % 10) ∷ acc))

-- A printed number begins with a digit.
digits_head :
    (f n : ℕ) (acc : Text) → n < f → (c : ℕ) × (cs : Text) × (digits f n acc ≡ c ∷ cs) × (b'0' ≤ c)
unfolding digits
digits_head zero n acc h = elim h [ ]
digits_head (suc f) n acc h = elim (Bool-cases (ltb n 10)) [
  | inl small ↦ (b'0' + n, acc, rw small, omega arith)
  | inr more ↦ rw more (digits_head f (n / 10) ((b'0' + n % 10) ∷ acc) (ground arith))
]

-- A text that begins with a digit has no sign.
HasDigit : Text → Type 0
HasDigit t = (c : ℕ) × (cs : Text) × (t ≡ c ∷ cs) × (b'0' ≤ c)

parse_uint_digits :
    (bound c : ℕ) (cs : Text) → b'0' ≤ c → parse_uint bound (c ∷ cs) ≡ parse_digits bound 0 (c ∷ cs)
unfolding parse_uint
parse_uint_digits bound c [] h = refl
parse_uint_digits bound c (d ∷ cs) h = ground arith

parse_uint-HasDigit :
    (bound : ℕ) (t : Text) → HasDigit t → parse_uint bound t ≡ parse_digits bound 0 t
unfolding HasDigit
parse_uint-HasDigit bound t (c, cs, e, h) = rw e (parse_uint_digits bound c cs h)

integer_digits : (c : ℕ) (cs : Text) → b'0' ≤ c → integer (c ∷ cs) ≡ pos (value 0 (c ∷ cs))
unfolding integer
integer_digits c cs h = ground arith

integer-HasDigit : (t : Text) → HasDigit t → integer t ≡ pos (value 0 t)
unfolding HasDigit
integer-HasDigit t (c, cs, e, h) = rw e (integer_digits c cs h)

to_string-HasDigit : (n : ℕ) → HasDigit (to_string n)
unfolding HasDigit to_string
to_string-HasDigit n = digits_head (suc n) n [] (omega arith)

value-to_string : (n : ℕ) → value 0 (to_string n) ≡ n
unfolding to_string value
value-to_string n = value-digits (suc n) n [] (omega arith)

-- `parse` reads back what `to_string` prints, up to the type's largest value.
pub parse_uint-to_string : (bound n : ℕ) → n ≤ bound → parse_uint bound (to_string n) ≡ some n
unfolding to_string parse_digits
parse_uint-to_string bound n h =
    parse_uint-HasDigit bound (to_string n) (to_string-HasDigit n)
    ∙ parse_digits-digits bound (suc n) n [] (omega arith) h

pub integer-to_string : (n : ℕ) → integer (to_string n) ≡ pos n
integer-to_string n =
    integer-HasDigit (to_string n) (to_string-HasDigit n) ∙ ap pos (value-to_string n)

-- A stored integer is read back with its sign.
pub integer-int_to_string : (z : ℤ) → integer (int_to_string z) ≡ z
unfolding int_to_string integer
integer-int_to_string (pos n) = integer-to_string n
integer-int_to_string (negsuc n) = ap negative (value-to_string (suc n))

pub to_string-injective : (m n : ℕ) → to_string m ≡ to_string n → m ≡ n
to_string-injective m n e =
    ap pos_part (sym (integer-to_string m) ∙ ap integer e ∙ integer-to_string n)
