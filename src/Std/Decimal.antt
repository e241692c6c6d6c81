-- ===== src/Std/Decimal.antt =====
-- `to_string` of an unsigned number, and `str::parse` into an unsigned type.
use marstack_container.Prelude.{
  ℕ, zero, suc, ◌+◌, ◌-◌, ◌*◌, ◌/◌, ◌%◌, ◌<◌, ◌≡◌, ◌∙◌, Bool, true, false, ◌&&◌, Option, none, some,
  [], ◌∷◌, ◌++◌, arith, leb, ltb, ◌==◌, if◌then◌else◌, Bool-cases, ltb→lt, inl, inr, ap,
}
use marstack_container.Prelude.Int.{ℤ, pos, negsuc}
use marstack_container.Std.Text.{Text}

-- One digit a round. A number has fewer digits than its successor, so the fuel `n + 1` is enough.
unfoldable pub digits : ℕ → ℕ → Text
digits zero n = []
digits (suc f) n =
    let rest = digits f (n / 10) ++ (b'0' + n % 10) ∷ [] in
    if ltb n 10 then (b'0' + n) ∷ [] else rest

-- `n.to_string()`.
unfoldable pub to_string : ℕ → Text
unfolding digits
to_string n = digits (suc n) n

unfoldable pub is_digit : ℕ → Bool
is_digit c = leb b'0' c && leb c b'9'

unfoldable pub digits_value : ℕ → Text → Option ℕ
unfolding is_digit
digits_value acc [] = some acc
digits_value acc (c ∷ cs) =
    let rest = digits_value (acc * 10 + (c - b'0')) cs in if is_digit c then rest else none

-- At least one digit, and a value below `2 ^ width`.
unfoldable pub parse_digits : ℕ → Text → Option ℕ
unfolding digits_value
parse_digits bound [] = none
parse_digits bound (c ∷ cs) = elim (digits_value 0 (c ∷ cs)) [
  | none ↦ none
  | some n ↦ if ltb n bound then some n else none
]

-- `s.parse::<uN>()` with `bound` for `2 ^ N`: a plus sign is accepted.
unfoldable pub parse_unsigned : ℕ → Text → Option ℕ
unfolding parse_digits
parse_unsigned bound [] = none
parse_unsigned bound (c ∷ cs) =
    if c == b'+' then parse_digits bound cs else parse_digits bound (c ∷ cs)

abbrev pub u32_bound : ℕ
u32_bound = 4_294_967_296

-- The first value that an `i32` cannot hold.
abbrev pub i32_bound : ℕ
i32_bound = 2_147_483_648

abbrev pub u64_bound : ℕ
u64_bound = 18_446_744_073_709_551_616

digits_value-append :
    (acc n : ℕ) (xs : Text) (c : ℕ)
    → digits_value acc xs ≡ some n
    → is_digit c ≡ true
    → digits_value acc (xs ++ c ∷ []) ≡ some (n * 10 + (c - b'0'))
unfolding digits_value
digits_value-append acc n [] c h d = ground arith
digits_value-append acc n (x ∷ xs) c h d =
    ground (arith, digits_value-append (acc * 10 + (x - b'0')) n xs c)

one_digit : (n : ℕ) → n < 10 → digits_value 0 ((b'0' + n) ∷ []) ≡ some n
unfolding digits_value
one_digit n h = ground arith

digit_ok : (n : ℕ) → is_digit (b'0' + n % 10) ≡ true
unfolding is_digit
digit_ok n = ground arith

one_more :
    (n : ℕ) (ds : Text)
    → digits_value 0 ds ≡ some (n / 10)
    → digits_value 0 (ds ++ (b'0' + n % 10) ∷ []) ≡ some n
one_more n ds h =
    digits_value-append 0 (n / 10) ds (b'0' + n % 10) h (digit_ok n) ∙ ap some (omega arith)

digits_value-digits : (f n : ℕ) → n < f → digits_value 0 (digits f n) ≡ some n
unfolding digits
digits_value-digits zero n h = absurd (omega arith)
digits_value-digits (suc f) n h = elim (Bool-cases (ltb n 10)) [
  | inl low ↦ rw low (one_digit n (ltb→lt n 10 low))
  | inr high ↦
      rw high (one_more n (digits f (n / 10)) (digits_value-digits f (n / 10) (ground arith)))
]

-- What a digit string means: `to_string` loses nothing.
pub digits_value-to_string : (n : ℕ) → digits_value 0 (to_string n) ≡ some n
unfolding to_string
digits_value-to_string n = digits_value-digits (suc n) n (omega arith)

starts_with_digit : Text → Bool
starts_with_digit [] = false
starts_with_digit (c ∷ cs) = is_digit c

starts_with_digit-append :
    (xs ys : Text) → starts_with_digit xs ≡ true → starts_with_digit (xs ++ ys) ≡ true
unfolding starts_with_digit
starts_with_digit-append [] ys h = cc
starts_with_digit-append (x ∷ xs) ys h = h

starts_with_digit-digits : (f n : ℕ) → n < f → starts_with_digit (digits f n) ≡ true
unfolding digits
starts_with_digit-digits zero n h = absurd (omega arith)
starts_with_digit-digits (suc f) n h = elim (Bool-cases (ltb n 10)) [
  | inl low ↦ rw low (unfold starts_with_digit is_digit in ground arith)
  | inr high ↦ rw high (
      starts_with_digit-append (digits f (n / 10)) _
        (starts_with_digit-digits f (n / 10) (ground arith)))
]

parse_digits_of_value :
    (s : Text) (n bound : ℕ)
    → starts_with_digit s ≡ true
    → digits_value 0 s ≡ some n
    → n < bound
    → parse_unsigned bound s ≡ some n
unfolding parse_unsigned starts_with_digit
parse_digits_of_value [] n bound d v h = cc
parse_digits_of_value (c ∷ cs) n bound d v h = ground (arith, plain)
  where
    plain : (c == b'+') ≡ false
    plain = unfold is_digit in ground arith

-- A number in range survives being written and read back.
pub parse_unsigned-to_string :
    (n bound : ℕ) → n < bound → parse_unsigned bound (to_string n) ≡ some n
unfolding to_string
parse_unsigned-to_string n bound h =
    parse_digits_of_value (digits (suc n) n) n bound
      (starts_with_digit-digits (suc n) n (omega arith)) (digits_value-to_string n) h

-- Every value that parses is in range.
pub parse_unsigned-lt : (s : Text) (bound n : ℕ) → parse_unsigned bound s ≡ some n → n < bound
unfolding parse_unsigned
parse_unsigned-lt [] bound n h = cc
parse_unsigned-lt (c ∷ []) bound n h = ground arith
parse_unsigned-lt (c ∷ d ∷ cs) bound n h = ground arith

-- `n.to_string()` of a signed number.
unfoldable pub int_to_string : ℤ → Text
unfolding to_string
int_to_string (pos n) = to_string n
int_to_string (negsuc n) = b'-' ∷ to_string (suc n)

negative : ℕ → Option ℤ
negative zero = some (pos zero)
negative (suc n) = some (negsuc n)

-- `s.parse::<i32>()`.
unfoldable pub parse_i32 : Text → Option ℤ
unfolding parse_unsigned negative
parse_i32 [] = none
parse_i32 (c ∷ cs) =
    if c == b'-'
    then elim (parse_digits (i32_bound + 1) cs) [ none ↦ none | some n ↦ negative n ]
    else elim (parse_unsigned i32_bound (c ∷ cs)) [ none ↦ none | some n ↦ some (pos n) ]

pub parse_i32-int_to_string :
    (n : ℕ) → n < i32_bound → parse_i32 (int_to_string (pos n)) ≡ some (pos n)
unfolding parse_i32 int_to_string
parse_i32-int_to_string n h =
    go (to_string n) (parse_unsigned-to_string n i32_bound h)
      (starts_with_digit-digits (suc n) n (omega arith))
  where
    go :
        (s : Text)
        → parse_unsigned i32_bound s ≡ some n
        → starts_with_digit s ≡ true
        → parse_i32 s ≡ some (pos n)
    go [] e d = cc
    go (c ∷ cs) e d = ground (arith, plain)
      where
        plain : (c == b'-') ≡ false
        plain = ground arith
