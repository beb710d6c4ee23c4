-- ===== src/Parsing.antt =====
-- services/nb-bond-api/src/parsing.ts: `parseBigInt` and `parsePositiveBigInt`, over JavaScript's
-- `BigInt(string)` (the grammar StringIntegerLiteral) and `bigint.toString()`.
pub mod Decimal
use cbdc_tokenization_sandbo.Prelude.{
  Bool, Option, Result, Text, [], err, false, if◌then◌else◌, leb, leb_ℤ, ltb, must_be_numeric,
  must_be_positive, neg, negsuc, none, ok, pos, some, suc, true, zero, ℕ, ℤ, ◌%◌, ◌&&◌, ◌*◌, ◌++◌,
  ◌+◌, ◌-◌, ◌/◌, ◌==◌, ◌>>=◌, ◌||◌, ◌∷◌,
}

-- The code units that JavaScript's `trim` and `BigInt` skip: WhiteSpace and LineTerminator.
pub is_space : ℕ → Bool
is_space c =
    (leb 9 c && leb c 13)
    || c == 32
    || c == 0xa0
    || c == 0x1680
    || (leb 0x2000 c && leb c 0x200a)
    || c == 0x2028
    || c == 0x2029
    || c == 0x202f
    || c == 0x205f
    || c == 0x3000
    || c == 0xfeff

trim_start : Text → Text
trim_start [] = []
trim_start (c ∷ s) = let rest = trim_start s in if is_space c then rest else c ∷ s

abbrev is_empty : Text → Bool
is_empty [] = true
is_empty (c ∷ s) = false

trim_end : Text → Text
trim_end [] = []
trim_end (c ∷ s) = let rest = trim_end s in if is_empty rest && is_space c then [] else c ∷ rest

-- `s.trim()`
unfoldable pub trim : Text → Text
unfolding trim_start trim_end is_space
trim s = trim_end (trim_start s)

-- The value of a digit in any base up to 36.
digit_value : ℕ → Option ℕ
digit_value c =
    if leb b'0' c && leb c b'9'
    then some (c - 48)
    else if leb b'a' c && leb c b'z'
    then some (c - 87)
    else if leb b'A' c && leb c b'Z'
    then some (c - 55)
    else none

-- One digit more behind the number read so far.
push_digit : ℕ → Option ℕ → ℕ → Option ℕ
push_digit base none c = none
push_digit base (some acc) c = elim (digit_value c) [
  | none ↦ none
  | some d ↦ if ltb d base then some (acc * base + d) else none
]

digits_from : ℕ → Option ℕ → Text → Option ℕ
digits_from base acc [] = acc
digits_from base acc (c ∷ s) = digits_from base (push_digit base acc c) s

-- One digit or more.
some_digits : ℕ → Text → Option ℕ
unfolding digits_from push_digit digit_value
some_digits base [] = none
some_digits base (c ∷ s) = digits_from base (some 0) (c ∷ s)

abbrev pub as_pos : Option ℕ → Option ℤ
as_pos none = none
as_pos (some n) = some (pos n)

abbrev pub as_neg : Option ℕ → Option ℤ
as_neg none = none
as_neg (some n) = some (neg (pos n))

-- What a letter behind a leading `0` says of the base.
prefix_base : ℕ → Option ℕ
prefix_base c =
    if c == b'x' || c == b'X'
    then some 16
    else if c == b'o' || c == b'O'
    then some 8
    else if c == b'b' || c == b'B'
    then some 2
    else none

-- A literal that begins with `0`: of another base, or decimal.
zero_literal : Text → Option ℤ
unfolding some_digits prefix_base
zero_literal [] = some (pos 0)
zero_literal (c ∷ s) = elim (prefix_base c) [
  | none ↦ as_pos (some_digits 10 (b'0' ∷ c ∷ s))
  | some base ↦ as_pos (some_digits base s)
]

-- StringIntegerLiteral, without the white space around it; the empty text is 0.
integer_literal : Text → Option ℤ
unfolding some_digits zero_literal neg
integer_literal [] = some (pos 0)
integer_literal (c ∷ s) =
    if c == b'-'
    then as_neg (some_digits 10 s)
    else if c == b'+'
    then as_pos (some_digits 10 s)
    else if c == b'0'
    then zero_literal s
    else as_pos (some_digits 10 (c ∷ s))

-- `BigInt(s)` on a string; `none` is its SyntaxError.
unfoldable pub string_to_bigint : Text → Option ℤ
unfolding trim integer_literal
string_to_bigint s = integer_literal (trim s)

-- A value of JavaScript, as far as `parseBigInt` tells values apart: a bigint; a number that is
-- integral, or not (fractions, NaN, infinities); a string; an object, by what its `toString` gives
-- if it has one that returns; anything else.
pub data Value : Type 0 where
  bigint integer : ℤ → Value
  fraction : Value
  string : Text → Value
  object : Option Text → Value
  other : Value

abbrev or_not_numeric : Option ℤ → Text → Result ℤ
or_not_numeric none field = err (must_be_numeric field)
or_not_numeric (some z) field = ok z

unfoldable pub parse_bigint : Value → Text → Result ℤ
unfolding string_to_bigint trim
parse_bigint (bigint z) field = ok z
parse_bigint (integer z) field = ok z
parse_bigint fraction field = err (must_be_numeric field)
parse_bigint (string s) field = or_not_numeric (string_to_bigint (trim s)) field
parse_bigint (object none) field = err (must_be_numeric field)
parse_bigint (object (some s)) field = or_not_numeric (string_to_bigint s) field
parse_bigint other field = err (must_be_numeric field)

unfoldable pub parse_positive_bigint : Value → Text → Result ℤ
unfolding parse_bigint
parse_positive_bigint value field = do
  as_bigint ← parse_bigint value field
  if leb_ℤ as_bigint (pos 0) then err (must_be_positive field) else ok as_bigint

-- `z.toString()`, on the digits of a natural number first; the number is below the fuel.
print_digits : ℕ → ℕ → Text
print_digits zero n = []
print_digits (suc fuel) n =
    let shorter = print_digits fuel (n / 10) ++ (48 + n % 10) ∷ [] in
    if ltb n 10 then (48 + n) ∷ [] else shorter

unfoldable pub print_bigint : ℤ → Text
unfolding print_digits
print_bigint (pos n) = print_digits (suc n) n
print_bigint (negsuc n) = b'-' ∷ print_digits (suc (suc n)) (suc n)
