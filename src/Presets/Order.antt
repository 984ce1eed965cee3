-- ===== src/Presets/Order.antt =====
-- Membership, and sort.Slice as an insertion sort by a test "less".
use webox.Prelude.{
  ◌≡◌, refl, sym, ap, ◌∙◌, ◌⊎◌, inl, inr, ◌↔◌, Bool, true, false, List, [], ◌∷◌, if◌then◌else◌, neg,
  arith, Bool-cases,
}
use webox.Prelude.Text.{Text, text_le}

module _ {A : Type 0} where
  abbrev pub In : A → List A → Type 0
  In a [] = ⊥
  In a (x ∷ xs) = (x ≡ a) ⊎ In a xs

  unfoldable pub filter : (A → Bool) → List A → List A
  filter p [] = []
  filter p (x ∷ xs) = let rest = filter p xs in if p x then x ∷ rest else rest

  unfoldable pub insert_by : (A → A → Bool) → A → List A → List A
  insert_by less a [] = a ∷ []
  insert_by less a (x ∷ xs) =
      let rest = insert_by less a xs in if less x a then x ∷ rest else a ∷ x ∷ xs

  unfoldable pub sort_by : (A → A → Bool) → List A → List A
  unfolding insert_by
  sort_by less [] = []
  sort_by less (x ∷ xs) = insert_by less x (sort_by less xs)

  -- No element is less than the one before it.
  abbrev pub IsOrdered : (A → A → Bool) → List A → Type 0
  IsOrdered less [] = Unit
  IsOrdered less (x ∷ []) = Unit
  IsOrdered less (x ∷ y ∷ xs) = (less y x ≡ false) × IsOrdered less (y ∷ xs)

  pub In-filter :
      (p : A → Bool) (a : A) (xs : List A) → In a (filter p xs) ↔ (In a xs × (p a ≡ true))
  unfolding filter
  In-filter p a [] = (λ h. absurd h, λ h. absurd h.0)
  In-filter p a (x ∷ xs) =
      let (there, back) = In-filter p a xs in
      elim (Bool-cases (p x)) [
        | inl e ↦
            rw (filter, e)
              (
                λ h. elim h [
                  | inl q ↦ (inl q, ap p (sym q) ∙ e)
                  | inr m ↦ (inr (there m).0, (there m).1)
                ],
                λ h. elim h.0 [ inl q ↦ inl q | inr m ↦ inr (back (m, h.1)) ],
              )
        | inr n ↦
            rw (filter, n)
              (
                λ m. (inr (there m).0, (there m).1),
                λ h. elim h.0 [ inl q ↦ absurd (cc (n, ap p q, h.1)) | inr m ↦ back (m, h.1) ],
              )
      ]

  In-insert_by :
      (less : A → A → Bool) (b a : A) (xs : List A)
      → In b (insert_by less a xs) ↔ ((a ≡ b) ⊎ In b xs)
  unfolding insert_by
  In-insert_by less b a [] = (λ h. h, λ h. h)
  In-insert_by less b a (x ∷ xs) =
      let (there, back) = In-insert_by less b a xs in
      elim (Bool-cases (less x a)) [
        | inr n ↦ rw (insert_by, n) (λ h. h, λ h. h)
        | inl e ↦
            rw (insert_by, e)
              (
                λ h. elim h [
                  | inl q ↦ inr (inl q)
                  | inr m ↦ elim (there m) [ inl q ↦ inl q | inr k ↦ inr (inr k) ]
                ],
                λ h. elim h [
                  | inl q ↦ inr (back (inl q))
                  | inr (inl q) ↦ inl q
                  | inr (inr k) ↦ inr (back (inr k))
                ],
              )
      ]

  -- Sorting keeps the members.
  pub In-sort_by : (less : A → A → Bool) (b : A) (xs : List A) → In b (sort_by less xs) ↔ In b xs
  unfolding sort_by
  In-sort_by less b [] = (λ h. h, λ h. h)
  In-sort_by less b (x ∷ xs) =
      let (there, back) = In-sort_by less b xs in
      let (out, into) = In-insert_by less b x (sort_by less xs) in
      (
        λ h. elim (out h) [ inl q ↦ inl q | inr m ↦ inr (there m) ],
        λ h. elim h [ inl q ↦ into (inl q) | inr m ↦ into (inr (back m)) ],
      )

  module _ (less : A → A → Bool) (asym : (x y : A) → less x y ≡ true → less y x ≡ false) where
    insert_by-IsOrdered :
        (a : A) (xs : List A) → IsOrdered less xs → IsOrdered less (insert_by less a xs)
    unfolding insert_by
    insert_by-IsOrdered a [] h = tt
    insert_by-IsOrdered a (x ∷ []) h = elim (Bool-cases (less x a)) [
      | inl e ↦ rw (insert_by, e) (asym x a e, tt)
      | inr n ↦ rw (insert_by, n) (n, tt)
    ]
    insert_by-IsOrdered a (x ∷ y ∷ xs) h =
        let later = insert_by-IsOrdered a (y ∷ xs) h.1 in
        elim (Bool-cases (less x a)) [
          | inr n ↦ rw (insert_by, n) (n, h)
          | inl e ↦ elim (Bool-cases (less y a)) [
            | inl k ↦ rw (insert_by, e, k) (h.0, rw (insert_by, k) at later)
            | inr m ↦ rw (insert_by, e, m) (asym x a e, rw (insert_by, m) at later)
          ]
        ]

    pub sort_by-IsOrdered : (xs : List A) → IsOrdered less (sort_by less xs)
    unfolding sort_by
    sort_by-IsOrdered [] = tt
    sort_by-IsOrdered (x ∷ xs) = insert_by-IsOrdered x (sort_by less xs) (sort_by-IsOrdered xs)

-- The order of Go strings.
unfoldable pub text_lt : Text → Text → Bool
unfolding text_le
text_lt s t = neg (text_le t s)

text_le_total : (s t : Text) → text_le s t ≡ false → text_le t s ≡ true
unfolding text_le
text_le_total [] t h = absurd (cc h)
text_le_total (c ∷ s) [] h = refl
text_le_total (c ∷ s) (d ∷ t) h = ground (arith, text_le_total s t)

pub text_lt_asym : (s t : Text) → text_lt s t ≡ true → text_lt t s ≡ false
unfolding text_lt
text_lt_asym s t h = ground (arith, h, text_le_total t s)
