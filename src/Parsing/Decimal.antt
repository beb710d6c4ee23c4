-- ===== src/Parsing/Decimal.antt =====
-- parsing.ts: decimal texts, as `toString` writes them and `BigInt` reads them.
use cbdc_tokenization_sandbo.Prelude.{
  All, All-append, Bool-cases, Option, Text, [], ap, arith, false, inl, inr, ltb, ltb→lt, neg,
  negsuc, ok, pos, refl, some, suc, zero, ℕ, ℤ, ◌%◌, ◌*◌, ◌++◌, ◌+◌, ◌-◌, ◌/◌, ◌<◌, ◌∙◌, ◌∷◌, ◌≡◌,
  ◌≤◌,
}
use cbdc_tokenization_sandbo.Parsing.{
  Value, as_pos, digit_value, digits_from, integer_literal, is_space, parse_bigint, print_bigint,
  print_digits, push_digit, some_digits, string_to_bigint, trim, trim_end,
}

abbrev pub IsDigit : ℕ → Type 0
IsDigit c = (48 ≤ c) × (c ≤ 57)

-- One digit or more, and nothing else.
abbrev pub IsDigits : Text → Type 0
IsDigits [] = ⊥
IsDigits (c ∷ s) = IsDigit c × All IsDigit s

digit-not-space : (c : ℕ) → 45 ≤ c → c ≤ 57 → is_space c ≡ false
unfolding is_space
digit-not-space c h k = ground arith

abbrev IsInk : ℕ → Type 0
IsInk c = is_space c ≡ false

trim_end-ink : (s : Text) → All IsInk s → trim_end s ≡ s
unfolding trim_end
trim_end-ink [] h = refl
trim_end-ink (c ∷ s) h = ground (arith, trim_end-ink s h.1)

trim-ink : (s : Text) → All IsInk s → trim s ≡ s
unfolding trim
trim-ink [] h = refl
trim-ink (c ∷ s) h = ground (arith, trim_end-ink (c ∷ s) h)

digits_from-concat :
    (base : ℕ) (acc : Option ℕ) (s : Text) (c : ℕ)
    → digits_from base acc (s ++ c ∷ []) ≡ push_digit base (digits_from base acc s) c
unfolding digits_from
digits_from-concat base acc [] c = refl
digits_from-concat base acc (d ∷ s) c = digits_from-concat base (push_digit base acc d) s c

push_digit-decimal : (a d : ℕ) → d < 10 → push_digit 10 (some a) (48 + d) ≡ some (a * 10 + d)
unfolding push_digit digit_value
push_digit-decimal a d h = ground arith

All-IsInk : (s : Text) → All IsDigit s → All IsInk s
All-IsInk [] h = tt
All-IsInk (c ∷ s) h = (digit-not-space c (omega arith) h.0.1, All-IsInk s h.1)

IsDigits-concat : (s : Text) (c : ℕ) → IsDigits s → IsDigit c → IsDigits (s ++ c ∷ [])
IsDigits-concat [] c h k = elim h [ ]
IsDigits-concat (d ∷ s) c h k = (h.0, All-append IsDigit s (c ∷ []) h.1 (k, tt))

IsDigits-All : (s : Text) → IsDigits s → All IsDigit s
IsDigits-All [] h = tt
IsDigits-All (c ∷ s) h = h

print_digits-IsDigits : (f n : ℕ) → n < f → IsDigits (print_digits f n)
unfolding print_digits
print_digits-IsDigits zero n h = elim h [ ]
print_digits-IsDigits (suc f) n h = elim (Bool-cases (ltb n 10)) [
  | inl short ↦ rw short (ground arith)
  | inr long ↦ rw long (
      IsDigits-concat (print_digits f (n / 10)) (48 + n % 10)
        (print_digits-IsDigits f (n / 10) (ground arith)) (omega arith))
]

digits_from-print_digits : (f n : ℕ) → n < f → digits_from 10 (some 0) (print_digits f n) ≡ some n
unfolding print_digits digits_from
digits_from-print_digits zero n h = elim h [ ]
digits_from-print_digits (suc f) n h = elim (Bool-cases (ltb n 10)) [
  | inl short ↦ rw short (push_digit-decimal 0 n (ltb→lt n 10 short) ∙ ap some (omega arith))
  | inr long ↦
      rw
        (
          long,
          digits_from-concat 10 (some 0) (print_digits f (n / 10)) (48 + n % 10),
          digits_from-print_digits f (n / 10) (ground arith),
          push_digit-decimal (n / 10) (n % 10) (omega arith),
        )
        (ap some (omega arith))
]

-- A decimal literal with no sign.
integer_literal-digits :
    (t : Text) → IsDigits t → integer_literal t ≡ as_pos (digits_from 10 (some 0) t)
unfolding integer_literal digits_from push_digit digit_value
integer_literal-digits [] h = elim h [ ]
integer_literal-digits (c ∷ []) h = ground arith
integer_literal-digits (c ∷ d ∷ t) h = ground arith

some_digits-IsDigits : (t : Text) → IsDigits t → some_digits 10 t ≡ digits_from 10 (some 0) t
unfolding some_digits
some_digits-IsDigits [] h = elim h [ ]
some_digits-IsDigits (c ∷ t) h = refl

module _ (t : Text) (n : ℕ) (h : IsDigits t) (reads : digits_from 10 (some 0) t ≡ some n) where
  string_to_bigint-pos : string_to_bigint t ≡ some (pos n)
  unfolding string_to_bigint
  string_to_bigint-pos =
      rw (trim-ink t (All-IsInk t (IsDigits-All t h)), integer_literal-digits t h, reads) refl

  string_to_bigint-neg : string_to_bigint (b'-' ∷ t) ≡ some (neg (pos n))
  unfolding string_to_bigint
  string_to_bigint-neg =
      rw
        (
          trim-ink (b'-' ∷ t) (refl, All-IsInk t (IsDigits-All t h)),
          some_digits-IsDigits t h,
          reads,
        )
        refl

-- `BigInt` reads back what `toString` writes, whatever the sign and the size.
pub string_to_bigint-print_bigint : (z : ℤ) → string_to_bigint (print_bigint z) ≡ some z
unfolding print_bigint neg
string_to_bigint-print_bigint (pos n) =
    string_to_bigint-pos (print_digits (suc n) n) n (print_digits-IsDigits (suc n) n (omega arith))
      (digits_from-print_digits (suc n) n (omega arith))
string_to_bigint-print_bigint (negsuc n) =
    string_to_bigint-neg (print_digits (suc (suc n)) (suc n)) (suc n)
      (print_digits-IsDigits (suc (suc n)) (suc n) (omega arith))
      (digits_from-print_digits (suc (suc n)) (suc n) (omega arith))
    ∙ ap some (ground arith)

trim-print_bigint : (z : ℤ) → trim (print_bigint z) ≡ print_bigint z
unfolding print_bigint
trim-print_bigint (pos n) = trim-ink (print_digits (suc n) n) (
    All-IsInk (print_digits (suc n) n)
      (IsDigits-All (print_digits (suc n) n) (print_digits-IsDigits (suc n) n (omega arith))))
trim-print_bigint (negsuc n) =
    let t = print_digits (suc (suc n)) (suc n) in
    trim-ink (b'-' ∷ t) (
      digit-not-space 45 (omega arith) (omega arith),
      All-IsInk t (IsDigits-All t (print_digits-IsDigits (suc (suc n)) (suc n) (omega arith))),
    )

-- `parseBigInt` reads back the text that `toString` writes of any bigint, whatever field it is told.
pub parse_bigint-print_bigint :
    (z : ℤ) (field : Text) → parse_bigint (Value.string (print_bigint z)) field ≡ ok z
unfolding parse_bigint
parse_bigint-print_bigint z field = rw (trim-print_bigint z, string_to_bigint-print_bigint z) refl

push_digit-digit : (a c : ℕ) → IsDigit c → push_digit 10 (some a) c ≡ some (a * 10 + (c - 48))
unfolding push_digit digit_value
push_digit-digit a c digit = ground arith

digits_from-digits :
    (a : ℕ) (t : Text) → All IsDigit t → (n : ℕ) × (digits_from 10 (some a) t ≡ some n)
unfolding digits_from
digits_from-digits a [] digits = (a, refl)
digits_from-digits a (c ∷ t) digits =
    let (n, reads) = digits_from-digits (a * 10 + (c - 48)) t digits.1 in
    (n, rw (push_digit-digit a c digits.0) reads)

-- `parseBigInt` accepts every text of digits, and returns a number that is not negative.
pub parse_bigint-digits :
    (t : Text)
    → IsDigits t
    → (n : ℕ) × ((field : Text) → parse_bigint (Value.string t) field ≡ ok (pos n))
unfolding parse_bigint
parse_bigint-digits t digits =
    let (n, reads) = digits_from-digits 0 t (IsDigits-All t digits) in
    (
      n,
      λ field.
          rw
            (
              trim-ink t (All-IsInk t (IsDigits-All t digits)),
              string_to_bigint-pos t n digits reads,
            )
            refl,
    )
