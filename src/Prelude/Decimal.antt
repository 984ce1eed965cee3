-- ===== src/Prelude/Decimal.antt =====
-- strconv.FormatInt and strconv.ParseInt in base 10 for 64 bits.
pub mod Codes
use webox.Prelude.{
  false, ℕ, zero, suc, ◌+◌, ◌-◌, ◌*◌, ◌/◌, ◌%◌, ◌^◌, ◌<◌, ◌≤◌, ◌≡◌, Bool, false, ◌&&◌, [], ◌∷◌,
  ◌++◌, Option, none, some, arith, leb, ltb, ◌==◌, if◌then◌else◌, Bool-cases, inl, inr,
}
use webox.Prelude.Text.{Text, is_empty}
use webox.Prelude.Int.{ℤ, pos, negsuc, pos_part, neg_part}

abbrev is_digit : ℕ → Bool
is_digit c = leb b'0' c && leb c b'9'

-- The value of a run of digits behind those read so far; none at any other character.
read_digits : ℕ → Text → Option ℕ
read_digits n [] = some n
read_digits n (c ∷ s) = if is_digit c then read_digits (n * 10 + (c - b'0')) s else none

parse_nat : Text → Option ℕ
unfolding read_digits
parse_nat s = if is_empty s then none else read_digits 0 s

-- The digits of `n`; fuel `suc n` is enough, since each step divides by ten.
digits_of : ℕ → ℕ → Text
digits_of zero n = []
digits_of (suc f) n =
    let rest = digits_of f (n / 10) in
    let here = b'0' + n % 10 in if ltb n 10 then here ∷ [] else rest ++ here ∷ []

unfoldable pub format_nat : ℕ → Text
unfolding digits_of
format_nat n = digits_of (suc n) n

unfoldable pub format_int : ℤ → Text
unfolding format_nat
format_int (pos n) = format_nat n
format_int (negsuc n) = b'-' ∷ format_nat (suc n)

at_most : ℕ → (ℕ → ℤ) → Option ℕ → Option ℤ
at_most limit sign none = none
at_most limit sign (some n) = if leb n limit then some (sign n) else none

abbrev negative : ℕ → ℤ
negative zero = pos 0
negative (suc n) = negsuc n

-- An optional sign, at least one digit, and the range of an int64.
unfoldable pub parse_int64 : Text → Option ℤ
unfolding parse_nat at_most
parse_int64 [] = none
parse_int64 (c ∷ s) =
    if c == b'-'
    then at_most (2 ^ 63) negative (parse_nat s)
    else if c == b'+'
    then at_most (2 ^ 63 - 1) pos (parse_nat s)
    else at_most (2 ^ 63 - 1) pos (parse_nat (c ∷ s))

read_digits-append :
    (n : ℕ) (s t : Text) (m : ℕ)
    → read_digits n s ≡ some m
    → read_digits n (s ++ t) ≡ read_digits m t
unfolding read_digits
read_digits-append n [] t m e = ground arith
read_digits-append n (c ∷ s) t m e = ground (arith, read_digits-append (n * 10 + (c - b'0')) s t m)

read_digits_of : (f n : ℕ) → n < f → read_digits 0 (digits_of f n) ≡ some n
unfolding digits_of
read_digits_of zero n lt = elim lt [ ]
read_digits_of (suc f) n lt = elim (Bool-cases (ltb n 10)) [
  | inl small ↦ rw small (unfold read_digits in ground arith)
  | inr large ↦ rw large (
      rw
        (read_digits-append 0 (digits_of f (n / 10)) _ (n / 10)
          (read_digits_of f (n / 10) (ground arith)))
        (unfold read_digits in ground arith))
]

-- A decimal begins with a digit.
abbrev Starts : Text → Type 0
Starts [] = ⊥
Starts (c ∷ s) = (b'0' ≤ c) × (c ≤ b'9')

Starts-append : (s t : Text) → Starts s → Starts (s ++ t)
Starts-append [] t h = absurd h
Starts-append (c ∷ s) t h = h

digits_of-Starts : (f n : ℕ) → n < f → Starts (digits_of f n)
unfolding digits_of
digits_of-Starts zero n lt = elim lt [ ]
digits_of-Starts (suc f) n lt = elim (Bool-cases (ltb n 10)) [
  | inl small ↦ rw small (ground arith)
  | inr large ↦
      rw large (Starts-append (digits_of f (n / 10)) _ (digits_of-Starts f (n / 10) (ground arith)))
]

parse_nat_of : (s : Text) (n : ℕ) → Starts s → read_digits 0 s ≡ some n → parse_nat s ≡ some n
unfolding parse_nat
parse_nat_of [] n h e = absurd h
parse_nat_of (c ∷ s) n h e = e

parse_nat-format_nat : (n : ℕ) → parse_nat (format_nat n) ≡ some n
unfolding format_nat
parse_nat-format_nat n =
    parse_nat_of (digits_of (suc n) n) n (digits_of-Starts (suc n) n (omega arith))
      (read_digits_of (suc n) n (omega arith))

-- Text that begins with a digit is read as a number without a sign.
unsigned :
    (s : Text) (n : ℕ) → Starts s → parse_nat s ≡ some n → n < 2 ^ 63 → parse_int64 s ≡ some (pos n)
unfolding parse_int64 at_most
unsigned [] n h e lt = absurd h
unsigned (c ∷ s) n h e lt = rw (c_minus, c_plus, e, at_most) (ground arith)
  where
    c_minus : (c == b'-') ≡ false
    c_minus = ground arith

    c_plus : (c == b'+') ≡ false
    c_plus = ground arith

format_nat-Starts : (n : ℕ) → Starts (format_nat n)
unfolding format_nat
format_nat-Starts n = digits_of-Starts (suc n) n (omega arith)

-- The range of an int64.
abbrev pub IsInt64 : ℤ → Type 0
IsInt64 z = (pos_part z < 2 ^ 63) × (neg_part z ≤ 2 ^ 63)

-- Every int64 is read back from its decimal form.
pub parse_int64-format_int : (z : ℤ) → IsInt64 z → parse_int64 (format_int z) ≡ some z
unfolding format_int
parse_int64-format_int (pos n) h =
    unsigned (format_nat n) n (format_nat-Starts n) (parse_nat-format_nat n) h.0
parse_int64-format_int (negsuc n) h =
    unfold parse_int64 at_most in rw (parse_nat-format_nat (suc n), at_most) (ground arith)
