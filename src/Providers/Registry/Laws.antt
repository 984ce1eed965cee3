-- ===== src/Providers/Registry/Laws.antt =====
-- The registries as finite maps: what a call changes, and what New and PlanValidatorsFor find.
use webox.Prelude.{
  ◌≡◌, ◌∙◌, refl, false, Option, none, some, arith, ◌⊎◌, inl, inr, Option-cases, Bool-cases,
  if◌then◌else◌,
}
use webox.Prelude.Text.{
  Text, text_eq, text_eq_iff, text_eq_refl, is_empty, trim_space, lookup, lookup-insert,
  lookup-erase,
}
use webox.Errors.{Error, wrap, sentinel, provider_already_registered}
use webox.Providers.Registry.{Factory, Registry, register, unregister}

module _ {P : Type 0} where
  -- A registration that succeeds binds the trimmed name, which is not empty and was free, and no other; one that
  -- fails changes nothing.
  pub register_settled :
      (t : Text) (factory : Option (Factory P)) (m : Registry P)
      → let r = register t factory m in
        ((f : Factory P) × (factory ≡ some f)
          × (r.1 ≡ none)
          × (is_empty (trim_space t) ≡ false)
          × (lookup (trim_space t) m ≡ none)
          × ((k : Text) → lookup k r.0 ≡ (if text_eq (trim_space t) k then some f else lookup k m)))
        ⊎ ((e : Error) × (r.1 ≡ some e) × (r.0 ≡ m))
  unfolding register
  register_settled t factory m = elim (Bool-cases (is_empty (trim_space t))) [
    | inl q ↦ rw (q, register) (inr (_, refl, refl))
    | inr q ↦
        rw (q, register)
          (elim (Option-cases factory) [
            | inl a ↦ rw (a) (inr (_, refl, refl))
            | inr (f, a) ↦ elim (Option-cases (lookup (trim_space t) m)) [
              | inl b ↦
                  rw (a, b)
                    (inl (f, refl, refl, refl, refl, λ k. lookup-insert (trim_space t) k f m))
              | inr (g, b) ↦ rw (a, b) (inr (_, refl, refl))
            ]
          ])
  ]

  taken_refused :
      (t : Text) (f g : Factory P) (m : Registry P)
      → is_empty (trim_space t) ≡ false
      → lookup (trim_space t) m ≡ some f
      → register t (some g) m ≡ (m, some (wrap (sentinel provider_already_registered)))
  unfolding register
  taken_refused t f g m named taken = rw (named, taken)

  -- After a registration that succeeds, a second one under the same name is refused and changes
  -- nothing, whatever factory it brings.
  pub register_twice :
      (t : Text) (f g : Factory P) (m : Registry P)
      → (register t (some f) m).1 ≡ none
      → register t (some g) (register t (some f) m).0
        ≡ ((register t (some f) m).0, some (wrap (sentinel provider_already_registered)))
  register_twice t f g m h = elim (register_settled t (some f) m) [
    | inr (e, q, same) ↦ absurd (cc (h, q))
    | inl (f', _, q, named, free, bound) ↦
        taken_refused t f' g (register t (some f) m).0 named
          (bound (trim_space t) ∙ rw (text_eq_refl (trim_space t)) refl)
  ]

  -- Unregister takes its name out and no other, and says whether it was there.
  pub unregister_settled :
      (t k : Text) (m : Registry P)
      → lookup k (unregister t m).0 ≡ (if text_eq t k then none else lookup k m)
  unfolding unregister
  unregister_settled t k m = elim (Option-cases (lookup t m)) [
    | inl q ↦ rw (q, unregister) (ground (arith, text_eq_iff t k))
    | inr (f, q) ↦ rw (q, unregister) (lookup-erase t k m)
  ]
