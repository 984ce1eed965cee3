-- ===== src/Prelude/Words/Pieces.antt =====
-- Cutting a text and joining it again.
use webox.Prelude.{
  ℕ, ◌≡◌, refl, Bool, true, false, ◌&&◌, ◌||◌, List, [], ◌∷◌, ◌++◌, reverse, arith, ◌==◌, neg, All,
  Bool-cases, inl, inr,
}
use mathlib.Core.List.{reverse-cons, reverse-reverse}
use webox.Prelude.Text.{Text, trim_left, trim_space, is_space}
use webox.Prelude.Words.{all, split, ends_with, push_code}

pub all-append : (p : ℕ → Bool) (s t : Text) → all p (s ++ t) ≡ (all p s && all p t)
unfolding all
all-append p [] t = refl
all-append p (c ∷ s) t = ground (arith, all-append p s t)

-- A text without the separator is the first piece.
pub split_first :
    (sep : ℕ) (s t : Text)
    → all (λ c. neg (c == sep)) s ≡ true
    → split sep (s ++ sep ∷ t) ≡ s ∷ split sep t
unfolding all split
split_first sep [] t h = ground arith
split_first sep (c ∷ s) t h = ground (arith, split_first sep s t)

split_nonempty : (sep : ℕ) (s : Text) → (t : Text) × (ts : List Text) × (split sep s ≡ t ∷ ts)
unfolding split
split_nonempty sep [] = ([], [], refl)
split_nonempty sep (c ∷ s) = elim (Bool-cases (c == sep)) [
  | inl e ↦ ([], split sep s, rw e refl)
  | inr n ↦ (let (t, ts, e) = split_nonempty sep s in (c ∷ t, ts, rw (n, e) refl))
]

-- The pieces of two texts around a separator.
pub split-append : (sep : ℕ) (s t : Text) → split sep (s ++ sep ∷ t) ≡ split sep s ++ split sep t
unfolding split
split-append sep [] t = ground arith
split-append sep (c ∷ s) t = elim (Bool-cases (c == sep)) [
  | inl e ↦ rw (e, split-append sep s t) refl
  | inr n ↦ (let (u, us, e) = split_nonempty sep s in rw (n, split-append sep s t, e) refl)
]

pub split_one : (sep : ℕ) (s : Text) → all (λ c. neg (c == sep)) s ≡ true → split sep s ≡ s ∷ []
unfolding all split
split_one sep [] h = refl
split_one sep (c ∷ s) h = ground (arith, split_one sep s)

pub ends_with-append : (c d : ℕ) (s t : Text) → ends_with c (s ++ d ∷ t) ≡ ends_with c (d ∷ t)
unfolding ends_with
ends_with-append c d [] t = refl
ends_with-append c d (x ∷ []) t = refl
ends_with-append c d (x ∷ y ∷ s) t = ends_with-append c d (y ∷ s) t

pub ends_with_none : (c : ℕ) (s : Text) → all (λ x. neg (x == c)) s ≡ true → ends_with c s ≡ false
unfolding ends_with all
ends_with_none c [] h = refl
ends_with_none c (x ∷ []) h = ground arith
ends_with_none c (x ∷ y ∷ s) h = ground (arith, ends_with_none c (y ∷ s))

push_code-All :
    (p : ℕ → Bool) (c : ℕ) (ts : List Text)
    → All (λ t. all p t ≡ true) (push_code c ts)
    → (p c ≡ true) × All (λ t. all p t ≡ true) ts
unfolding all
push_code-All p c [] h = ground (arith, h)
push_code-All p c (t ∷ ts) h = ground (arith, h)

-- If every piece passes a test, then every code passes it or is the separator.
pub all-split :
    (p : ℕ → Bool) (sep : ℕ) (s : Text)
    → All (λ t. all p t ≡ true) (split sep s)
    → all (λ c. p c || c == sep) s ≡ true
unfolding all split
all-split p sep [] h = refl
all-split p sep (c ∷ s) h = elim (Bool-cases (c == sep)) [
  | inl e ↦ ground (arith, e, all-split p sep s (rw e at h).1)
  | inr n ↦
      (let parts = push_code-All p c (split sep s) (rw n at h) in
        ground (arith, n, parts.0, all-split p sep s parts.1))
]

-- A code that passes a stronger test passes the weaker one.
pub all_mono :
    (p q : ℕ → Bool) (s : Text)
    → ((c : ℕ) → p c ≡ true → q c ≡ true)
    → all p s ≡ true
    → all q s ≡ true
unfolding all
all_mono p q [] imp h = refl
all_mono p q (c ∷ s) imp h = ground (arith, imp c, all_mono p q s imp)

pub all-reverse : (p : ℕ → Bool) (s : Text) → all p s ≡ true → all p (reverse s) ≡ true
unfolding all
all-reverse p [] h = h
all-reverse p (c ∷ s) h =
    rw (reverse-cons c s, all-append p (reverse s) (c ∷ [])) (ground (arith, h, all-reverse p s))

trim_left_none : (s : Text) → all (λ c. neg (is_space c)) s ≡ true → trim_left s ≡ s
unfolding trim_left all
trim_left_none [] h = refl
trim_left_none (c ∷ s) h = ground arith

-- A text without white space is trimmed already.
pub trim_space_none : (s : Text) → all (λ c. neg (is_space c)) s ≡ true → trim_space s ≡ s
unfolding trim_space
trim_space_none s h =
    rw (trim_left_none s h, trim_left_none (reverse s) (all-reverse _ s h)) (reverse-reverse s)
