-- ===== src/Wizard/Stack/Snoc.antt =====
-- The back end of a list.
use webox.Prelude.{
  suc, ◌≡◌, refl, ap, List, [], ◌∷◌, ◌++◌, Option, none, some, arith, reverse, length,
  length-append,
}
use mathlib.Core.List.{reverse-append}

module _ {ℓ} {A : Type ℓ} where
  behind : A → Option (List A × A) → Option (List A × A)
  behind x none = some ([], x)
  behind x (some (rest, last)) = some (x ∷ rest, last)

  -- `xs[:len(xs)-1]` and `xs[len(xs)-1]`.
  unfoldable pub unsnoc : List A → Option (List A × A)
  unfolding behind
  unsnoc [] = none
  unsnoc (x ∷ xs) = behind x (unsnoc xs)

  unfoldable pub drop_last : List A → List A
  drop_last [] = []
  drop_last (x ∷ []) = []
  drop_last (x ∷ y ∷ xs) = x ∷ drop_last (y ∷ xs)

  pub unsnoc-snoc : (xs : List A) (x : A) → unsnoc (xs ++ x ∷ []) ≡ some (xs, x)
  unfolding unsnoc
  unsnoc-snoc [] x = refl
  unsnoc-snoc (y ∷ xs) x = rw (unsnoc-snoc xs x)

  pub drop_last-snoc : (xs : List A) (x : A) → drop_last (xs ++ x ∷ []) ≡ xs
  unfolding drop_last
  drop_last-snoc [] x = refl
  drop_last-snoc (y ∷ []) x = refl
  drop_last-snoc (y ∷ z ∷ xs) x = ap (◌∷◌ y) (drop_last-snoc (z ∷ xs) x)

  -- What `unsnoc` says of its argument.
  abbrev pub Splits : List A → Option (List A × A) → Type ℓ
  Splits xs none = xs ≡ []
  Splits xs (some (rest, last)) = xs ≡ rest ++ last ∷ []

  behind-Splits :
      (x : A) (xs : List A) (o : Option (List A × A)) → Splits xs o → Splits (x ∷ xs) (behind x o)
  unfolding behind
  behind-Splits x xs none e = ap (◌∷◌ x) e
  behind-Splits x xs (some (rest, last)) e = ap (◌∷◌ x) e

  pub unsnoc-Splits : (xs : List A) → Splits xs (unsnoc xs)
  unfolding unsnoc
  unsnoc-Splits [] = refl
  unsnoc-Splits (x ∷ xs) = behind-Splits x xs (unsnoc xs) (unsnoc-Splits xs)

  pub reverse-snoc : (xs : List A) (x : A) → reverse (xs ++ x ∷ []) ≡ x ∷ reverse xs
  reverse-snoc xs x = reverse-append xs (x ∷ [])

  pub length-snoc : (xs : List A) (x : A) → length (xs ++ x ∷ []) ≡ suc (length xs)
  length-snoc xs x = omega (arith, length-append xs (x ∷ []))
