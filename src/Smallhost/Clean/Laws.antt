-- ===== src/Smallhost/Clean/Laws.antt =====
-- What is left of an output that was cleaned.
use webox.Prelude.{
  ◌≡◌, refl, ap, ◌≤◌, ◌^◌, ℕ, zero, suc, Bool, true, false, ◌&&◌, ◌||◌, [], ◌∷◌, ◌==◌, leb, ltb,
  arith, neg, length, Bool-cases, inl, inr,
}
use webox.Prelude.Text.{Text}
use webox.Prelude.Words.{all}
use webox.Errors.{ok, ok-injective}
use webox.Smallhost.Clean.{
  max_output_size, escape_length, strip_escapes, replace_crlf, replace_cr, has_unprintable,
  strip_and_normalize,
}

-- ASCII that can be printed, tabs and line feeds.
abbrev pub is_clean : ℕ → Bool
is_clean c = c == 10 || c == 9 || (leb 0x20 c && leb c 0x7e)

has_unprintable_lem : (s : Text) → has_unprintable s ≡ neg (all is_clean s)
unfolding has_unprintable all
has_unprintable_lem [] = refl
has_unprintable_lem (c ∷ s) = ground (arith, has_unprintable_lem s)

escape_length_clean : (c : ℕ) (s : Text) → is_clean c ≡ true → escape_length (c ∷ s) ≡ 0
unfolding escape_length
escape_length_clean c [] h = refl
escape_length_clean c (d ∷ s) h = ground (arith, h)

strip_escapes_clean : (s : Text) → all is_clean s ≡ true → strip_escapes 0 s ≡ s
unfolding strip_escapes all
strip_escapes_clean [] h = refl
strip_escapes_clean (c ∷ s) h =
    rw (strip_escapes, escape_length_clean c s (ground (arith, h)))
      (ap (◌∷◌ c) (strip_escapes_clean s (ground (arith, h))))

clean_tail : (c : ℕ) (s : Text) → all is_clean (c ∷ s) ≡ true → all is_clean s ≡ true
unfolding all
clean_tail c s h = ground (arith, h)

clean_not_cr : (c d : ℕ) (s : Text) → all is_clean (c ∷ s) ≡ true → (c == 13 && d == 10) ≡ false
unfolding all
clean_not_cr c d s h = ground (arith, h)

replace_crlf_clean : (s : Text) → all is_clean s ≡ true → replace_crlf s ≡ s
unfolding replace_crlf all
replace_crlf_clean [] h = refl
replace_crlf_clean (c ∷ []) h = refl
replace_crlf_clean (c ∷ d ∷ s) h =
    let keeps : (c == 13 && d == 10) ≡ false = clean_not_cr c d (d ∷ s) h in
    rw (replace_crlf, keeps) (ap (◌∷◌ c) (replace_crlf_clean (d ∷ s) (clean_tail c (d ∷ s) h)))

replace_cr_clean : (s : Text) → all is_clean s ≡ true → replace_cr s ≡ s
unfolding replace_cr all
replace_cr_clean [] h = refl
replace_cr_clean (c ∷ s) h = ground (arith, h, replace_cr_clean s)

length-strip_escapes : (n : ℕ) (s : Text) → length (strip_escapes n s) ≤ length s
unfolding strip_escapes
length-strip_escapes zero [] = omega arith
length-strip_escapes (suc n) [] = omega arith
length-strip_escapes (suc n) (c ∷ s) = ground (arith, length-strip_escapes n s)
length-strip_escapes zero (c ∷ s) =
    elim (escape_length (c ∷ s))
      as (λ m.
        length (elim m [ zero ↦ c ∷ strip_escapes 0 s | suc n ↦ strip_escapes n s ])
        ≤ suc (length s)) [
          | zero ↦ ground (arith, length-strip_escapes 0 s)
          | suc n ↦ ground (arith, length-strip_escapes n s)
        ]

length-replace_crlf : (s : Text) → length (replace_crlf s) ≤ length s
unfolding replace_crlf
length-replace_crlf [] = omega arith
length-replace_crlf (c ∷ []) = omega arith
length-replace_crlf (c ∷ d ∷ s) = ground (arith, length-replace_crlf s, length-replace_crlf (d ∷ s))

length-replace_cr : (s : Text) → length (replace_cr s) ≡ length s
unfolding replace_cr
length-replace_cr [] = refl
length-replace_cr (c ∷ s) = ap suc (length-replace_cr s)

-- A clean text within the cap is given back as it is.
pub strip_and_normalize_clean :
    (s : Text) → all is_clean s ≡ true → length s ≤ max_output_size → strip_and_normalize s ≡ ok s
unfolding strip_and_normalize
strip_and_normalize_clean s h size =
    let same : replace_cr (replace_crlf (strip_escapes 0 s)) ≡ s =
      rw (strip_escapes_clean s h, replace_crlf_clean s h, replace_cr_clean s h) refl in
    rw (same, has_unprintable_lem s, h) (ground (arith, size))

abbrev cleaned : Text → Text
cleaned raw = replace_cr (replace_crlf (strip_escapes 0 raw))

length-cleaned : (raw : Text) → length (cleaned raw) ≤ length raw
length-cleaned raw = omega (
  arith,
  length-replace_cr (replace_crlf (strip_escapes 0 raw)),
  length-replace_crlf (strip_escapes 0 raw),
  length-strip_escapes 0 raw,
)

let_through :
    (raw clean : Text)
    → strip_and_normalize raw ≡ ok clean
    → (ltb max_output_size (length raw) ≡ false)
      × (has_unprintable (cleaned raw) ≡ false)
      × (cleaned raw ≡ clean)
unfolding strip_and_normalize
let_through raw clean h = elim (Bool-cases (ltb max_output_size (length raw))) [
  | inl large ↦ absurd (cc (rw large at h))
  | inr small ↦ elim (Bool-cases (has_unprintable (cleaned raw))) [
    | inl bad ↦ absurd (cc (rw (small, bad) at h))
    | inr good ↦ (small, good, ok-injective (rw (small, good) at h))
  ]
]

-- An output that is let through is at most 1 MiB; what is left of it is not longer, is made of
-- printable ASCII, tabs and line feeds, and is left as it is by a second pass.
pub strip_and_normalize_sound :
    (raw clean : Text)
    → strip_and_normalize raw ≡ ok clean
    → (length raw ≤ 2 ^ 20)
      × (length clean ≤ length raw)
      × (all is_clean clean ≡ true)
      × (strip_and_normalize clean ≡ ok clean)
strip_and_normalize_sound raw clean h =
    let t = let_through raw clean h in
    let size : length raw ≤ max_output_size = ground (arith, t.0) in
    let short : length clean ≤ length raw = rw t.2 at (length-cleaned raw) in
    let fine : all is_clean clean ≡ true =
      ground (arith, has_unprintable_lem clean, rw t.2 at t.1) in
    (size, short, fine, strip_and_normalize_clean clean fine (omega (arith, size, short)))
