-- ===== src/Prelude/Decimal/Codes.antt =====
-- The characters of decimals, and where a text splits at a character.
use webox.Prelude.{
  sym, ◌∙◌, ◌≡◌, refl, ap, Bool, true, ℕ, zero, suc, ◌+◌, false, ◌||◌, [], ◌∷◌, ◌++◌, arith,
  Bool-cases, inl, inr, ltb, ◌/◌, ◌%◌, some,
}
use webox.Prelude.Text.{Text, contains_code}
use webox.Prelude.Words.{is_digit, all}
use webox.Prelude.Words.Pieces.{all-append, all_mono}
use webox.Prelude.Int.{ℤ, pos, negsuc}
use webox.Prelude.Decimal.{
  digits_of, format_nat, format_int, IsInt64, parse_int64, parse_int64-format_int,
}

contains_code-append :
    (c : ℕ) (s t : Text) → contains_code c (s ++ t) ≡ (contains_code c s || contains_code c t)
unfolding contains_code
contains_code-append c [] t = refl
contains_code-append c (d ∷ s) t = ground (arith, contains_code-append c s t)

colon-digits_of : (f n : ℕ) → contains_code b':' (digits_of f n) ≡ false
unfolding digits_of contains_code
colon-digits_of zero n = refl
colon-digits_of (suc f) n = elim (Bool-cases (ltb n 10)) [
  | inl small ↦ rw small (ground arith)
  | inr large ↦
      rw (large, contains_code-append b':' (digits_of f (n / 10)) ((b'0' + n % 10) ∷ []))
        (ground (arith, colon-digits_of f (n / 10)))
]

all-digits_of : (f n : ℕ) → all is_digit (digits_of f n) ≡ true
unfolding digits_of all
all-digits_of zero n = refl
all-digits_of (suc f) n = elim (Bool-cases (ltb n 10)) [
  | inl small ↦ rw small (ground arith)
  | inr large ↦
      rw (large, all-append is_digit (digits_of f (n / 10)) ((b'0' + n % 10) ∷ []))
        (ground (arith, all-digits_of f (n / 10)))
]

-- A decimal is made of digits behind an optional minus sign.
pub all-format_int :
    (p : ℕ → Bool) (z : ℤ)
    → ((c : ℕ) → is_digit c ≡ true → p c ≡ true)
    → p b'-' ≡ true
    → all p (format_int z) ≡ true
unfolding format_int format_nat all
all-format_int p (pos n) digits minus =
    all_mono is_digit p (digits_of (suc n) n) digits (all-digits_of (suc n) n)
all-format_int p (negsuc n) digits minus = ground (
  arith,
  minus,
  all_mono is_digit p (digits_of (suc (suc n)) (suc n)) digits
      (all-digits_of (suc (suc n)) (suc n)),
)

-- A decimal has no colon.
pub colon-format_int : (z : ℤ) → contains_code b':' (format_int z) ≡ false
unfolding format_int format_nat contains_code
colon-format_int (pos n) = colon-digits_of (suc n) n
colon-format_int (negsuc n) = ground (arith, colon-digits_of (suc (suc n)) (suc n))

-- Two int64 with one decimal form are the same.
pub format_int-injective : (y z : ℤ) → IsInt64 y → IsInt64 z → format_int y ≡ format_int z → y ≡ z
format_int-injective y z hy hz e =
    let same : some y ≡ some z =
      sym (parse_int64-format_int y hy) ∙ ap parse_int64 e ∙ parse_int64-format_int z hz in
    ground (arith, same)

abbrev tail_of : Text → Text
tail_of [] = []
tail_of (c ∷ s) = s

abbrev head_of : Text → ℕ
head_of [] = 0
head_of (c ∷ s) = c

-- A text splits in one way before the first of its codes `c`,
pub split_first :
    (c : ℕ) (s t u v : Text)
    → contains_code c s ≡ false
    → contains_code c t ≡ false
    → s ++ c ∷ u ≡ t ++ c ∷ v
    → (s ≡ t) × (u ≡ v)
unfolding contains_code
split_first c [] [] u v hs ht e = (refl, ap tail_of e)
split_first c [] (d ∷ t) u v hs ht e = absurd (ground (arith, ht, ap head_of e))
split_first c (d ∷ s) [] u v hs ht e = absurd (ground (arith, hs, ap head_of e))
split_first c (d ∷ s) (d' ∷ t) u v hs ht e =
    let (same, rest) =
      split_first c s t u v (ground (arith, hs)) (ground (arith, ht)) (ap tail_of e) in
    let heads : d ≡ d' = ap head_of e in (rw (heads, same) refl, rest)

-- and after the last.
pub split_last :
    (c : ℕ) (s t u v : Text)
    → contains_code c u ≡ false
    → contains_code c v ≡ false
    → s ++ c ∷ u ≡ t ++ c ∷ v
    → (s ≡ t) × (u ≡ v)
unfolding contains_code
split_last c [] [] u v hu hv e = (refl, ap tail_of e)
split_last c [] (d ∷ t) u v hu hv e =
    let inside : u ≡ t ++ c ∷ v = ap tail_of e in
    absurd (ground (arith, contains_code-append c t (c ∷ v), hu, ap (contains_code c) inside))
split_last c (d ∷ s) [] u v hu hv e =
    let inside : s ++ c ∷ u ≡ v = ap tail_of e in
    absurd (ground (arith, contains_code-append c s (c ∷ u), hv, ap (contains_code c) inside))
split_last c (d ∷ s) (d' ∷ t) u v hu hv e =
    let (same, rest) = split_last c s t u v hu hv (ap tail_of e) in
    let heads : d ≡ d' = ap head_of e in (rw (heads, same) refl, rest)
