-- ===== src/Smallhost/Scan/Visible.antt =====
-- The matchers on words of visible ASCII.
use webox.Prelude.{
  ◌≡◌, refl, sym, ap, ◌∙◌, ℕ, zero, suc, Bool, true, false, ◌&&◌, [], ◌∷◌, ◌++◌, some, leb, reverse,
  append-nil, append_assoc, arith, neg,
}
use mathlib.Core.List.{reverse-append, reverse-reverse, reverse-cons}
use webox.Prelude.Text.{Text, is_empty, is_space, trim_left, trim_space}
use webox.Prelude.Words.{is_blank, all, span}
use webox.Prelude.Words.Pieces.{all_mono, all-reverse}
use webox.Smallhost.Scan.{word}

abbrev pub is_visible : ℕ → Bool
is_visible c = leb 33 c && leb c 126

-- A word of visible ASCII.
abbrev pub IsWord : Text → Type 0
IsWord s = (is_empty s ≡ false) × (all is_visible s ≡ true)

span-append :
    (p : ℕ → Bool) (s : Text) (c : ℕ) (t : Text)
    → all p s ≡ true
    → p c ≡ false
    → span p (s ++ c ∷ t) ≡ (s, c ∷ t)
unfolding span all
span-append p [] c t h e = rw e refl
span-append p (d ∷ s) c t h e = rw (span-append p s c t (ground (arith, h)) e) (ground (arith, h))

span-all : (p : ℕ → Bool) (s : Text) → all p s ≡ true → span p s ≡ (s, [])
unfolding span all
span-all p [] h = refl
span-all p (d ∷ s) h = rw (span-all p s (ground (arith, h))) (ground (arith, h))

visible-not_blank : (s : Text) → all is_visible s ≡ true → all (λ c. neg (is_blank c)) s ≡ true
visible-not_blank s h = all_mono is_visible _ s (λ c k. ground arith) h

pub span-space : (s t : Text) → IsWord s → span (λ c. neg (is_blank c)) (s ++ 32 ∷ t) ≡ (s, 32 ∷ t)
span-space s t h = span-append (λ c. neg (is_blank c)) s 32 t (visible-not_blank s h.1) refl

pub span_whole : (s : Text) → IsWord s → span (λ c. neg (is_blank c)) s ≡ (s, [])
span_whole s h = span-all (λ c. neg (is_blank c)) s (visible-not_blank s h.1)

-- A word before a space is read up to it.
pub word-space : (s t : Text) → IsWord s → word (s ++ 32 ∷ t) ≡ some (s, 32 ∷ t)
unfolding word
word-space s t h = rw (span-space s t h, h.0) refl

-- No blank stands before a word.
pub span-word : (s t : Text) → IsWord s → span is_blank (s ++ t) ≡ ([], s ++ t)
unfolding span all
span-word [] t h = absurd (cc (h.0))
span-word (c ∷ s) t h = let stop : is_blank c ≡ false = ground (arith, h.1) in rw stop refl

pub span_blank-word : (s : Text) → IsWord s → span is_blank s ≡ ([], s)
span_blank-word s h = rw (append-nil s) at (span-word s [] h)

-- Blanks of the given number.
abbrev pub spaces : ℕ → Text
spaces zero = []
spaces (suc n) = 32 ∷ spaces n

pub span-spaces :
    (n : ℕ) (s t : Text) → IsWord s → span is_blank (spaces n ++ (s ++ t)) ≡ (spaces n, s ++ t)
unfolding span
span-spaces zero s t h = span-word s t h
span-spaces (suc n) s t h = rw (span-spaces n s t h) refl

pub span_blank-spaces :
    (n : ℕ) (s : Text) → IsWord s → span is_blank (spaces n ++ s) ≡ (spaces n, s)
unfolding span
span_blank-spaces zero s h = span_blank-word s h
span_blank-spaces (suc n) s h = rw (span_blank-spaces n s h) refl

trim_left-word : (s t : Text) → IsWord s → trim_left (s ++ t) ≡ s ++ t
unfolding trim_left is_space all
trim_left-word [] t h = absurd (cc (h.0))
trim_left-word (c ∷ s) t h = ground (arith, h.1)

reverse-IsWord : (s : Text) → IsWord s → IsWord (reverse s)
reverse-IsWord s h = (filled s h.0, all-reverse is_visible s h.1)
  where
    filled : (s : Text) → is_empty s ≡ false → is_empty (reverse s) ≡ false
    filled [] h = h
    filled (c ∷ s) h = rw (reverse-cons c s) (last (reverse s))
      where
        last : (r : Text) → is_empty (r ++ c ∷ []) ≡ false
        last [] = refl
        last (d ∷ r) = refl

-- A line that begins and ends with a word is trimmed already.
pub trim_space-words :
    (s m t : Text) → IsWord s → IsWord t → trim_space (s ++ (m ++ t)) ≡ s ++ (m ++ t)
unfolding trim_space
trim_space-words s m t hs ht =
    let back : reverse (s ++ (m ++ t)) ≡ reverse t ++ (reverse m ++ reverse s) =
      reverse-append s (m ++ t)
      ∙ ap (λ r. r ++ reverse s) (reverse-append m t)
      ∙ append_assoc (reverse t) (reverse m) (reverse s) in
    ap (λ r. reverse (trim_left (reverse r))) (trim_left-word s (m ++ t) hs)
    ∙ ap (λ r. reverse (trim_left r)) back
    ∙ ap reverse (trim_left-word (reverse t) (reverse m ++ reverse s) (reverse-IsWord t ht))
    ∙ sym (ap reverse back)
    ∙ reverse-reverse (s ++ (m ++ t))
