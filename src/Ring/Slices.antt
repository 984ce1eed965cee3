-- ===== src/Ring/Slices.antt =====
-- Slices of lists: what the copies of a ring buffer's methods put together.
use webox.Prelude.{
  ℕ, zero, suc, ◌+◌, ◌-◌, ◌%◌, ◌<◌, ◌≤◌, ◌≡◌, refl, sym, ap, ◌∙◌, inl, inr, List, [], ◌∷◌, ◌++◌,
  arith, length, set, take, drop, replicate, length-append, length-replicate, drop-length,
  length-drop, drop-append, append_assoc, append-nil, Bool-cases, if◌then◌else◌, leb,
}
use native.Mathlib.Nat.{zero-add, suc-add}
use native.Mathlib.Numerals.{add-one}
use webox.Ring.{copy}
use webox.Ring.Invariant.{mod-suc}

module _ {ℓ} {A : Type ℓ} where
  pub copy_all : (out src : List A) → length out ≡ length src → copy out 0 src ≡ src
  unfolding copy
  copy_all [] [] e = refl
  copy_all [] (s ∷ src) e = absurd (omega arith)
  copy_all (x ∷ out) [] e = absurd (omega arith)
  copy_all (x ∷ out) (s ∷ src) e = ap (◌∷◌ s) (copy_all out src (omega arith))

  pub copy_two :
      (out front back : List A)
      → length out ≡ length front + length back
      → copy (copy out 0 front) (length front) back ≡ front ++ back
  unfolding copy
  copy_two [] [] [] e = refl
  copy_two [] [] (s ∷ back) e = absurd (omega arith)
  copy_two (x ∷ out) [] back e = copy_all (x ∷ out) back (omega arith)
  copy_two [] (s ∷ front) back e = absurd (omega arith)
  copy_two (x ∷ out) (s ∷ front) back e = ap (◌∷◌ s) (copy_two out front back (omega arith))

  pub length-take : (n : ℕ) (xs : List A) → n ≤ length xs → length (take n xs) ≡ n
  length-take zero xs h = refl
  length-take (suc n) [] h = absurd (omega arith)
  length-take (suc n) (x ∷ xs) h = ap suc (length-take n xs (omega arith))

  pub take-set :
      (i : ℕ) (xs : List A) (v : A)
      → i < length xs
      → take (suc i) (set xs i v) ≡ take i xs ++ v ∷ []
  take-set i [] v h = absurd (omega arith)
  take-set zero (x ∷ xs) v h = refl
  take-set (suc i) (x ∷ xs) v h = ap (◌∷◌ x) (take-set i xs v (omega arith))

  pub drop-set : (i : ℕ) (xs : List A) (v : A) → drop (suc i) (set xs i v) ≡ drop (suc i) xs
  drop-set i [] v = refl
  drop-set zero (x ∷ xs) v = refl
  drop-set (suc i) (x ∷ xs) v = drop-set i xs v

  pub drop_one :
      (i : ℕ) (xs ys : List A) → i < length xs → drop 1 (drop i xs ++ ys) ≡ drop (suc i) xs ++ ys
  drop_one i [] ys h = absurd (omega arith)
  drop_one zero (x ∷ xs) ys h = refl
  drop_one (suc i) (x ∷ xs) ys h = drop_one i xs ys (omega arith)

  pub length-rotated :
      (b : List A) (h : ℕ) → h ≤ length b → length (drop h b ++ take h b) ≡ length b
  length-rotated b h le =
      omega (arith, length-append (drop h b) (take h b), length-drop h b, length-take h b le)

  pub rotated_lem :
      (out b : List A) (h cap : ℕ)
      → length b ≡ cap
      → h < cap
      → length out ≡ cap
      → copy (copy out 0 (drop h b)) (cap - h) (take h b) ≡ drop h b ++ take h b
  rotated_lem out b h cap e lt o =
      let n : cap - h ≡ length (drop h b) = omega (arith, length-drop h b) in
      rw n (
        copy_two out (drop h b) (take h b)
          (omega (arith, length-drop h b, length-take h b (omega arith))))

  pub set_last : (b : List A) (h : ℕ) (v : A) → length b ≡ suc h → set b h v ≡ take h b ++ v ∷ []
  set_last [] h v e = absurd (omega arith)
  set_last (x ∷ []) zero v e = refl
  set_last (x ∷ y ∷ b) zero v e = absurd (omega arith)
  set_last (x ∷ b) (suc h) v e = ap (◌∷◌ x) (set_last b h v (omega arith))

  pub drop_rotated :
      (b : List A) (h : ℕ) (v : A)
      → h < length b
      → drop 1 ((drop h b ++ take h b) ++ v ∷ []) ≡ drop (suc h) b ++ (take h b ++ v ∷ [])
  drop_rotated b h v lt = rw append_assoc (drop_one h b (take h b ++ v ∷ []) lt)

  pub rotate_push :
      (b : List A) (h cap : ℕ) (v : A)
      → length b ≡ cap
      → h < cap
      → drop ((h + 1) % cap) (set b h v) ++ take ((h + 1) % cap) (set b h v)
        ≡ drop 1 ((drop h b ++ take h b) ++ v ∷ [])
  rotate_push b h cap v e lt = rw (drop_rotated b h v (omega arith)) (elim (mod-suc h cap lt) [
    | inl (m, _) ↦ rw (m, add-one, drop-set, take-set h b v (omega arith))
    | inr (m, last) ↦
        let n : suc h ≡ length b = omega arith in
        rw (m, append-nil, n, drop-length) (set_last b h v (sym n))
  ])

  pub drop-nil : (n : ℕ) → drop {A = A} n [] ≡ []
  drop-nil zero = refl
  drop-nil (suc n) = refl

  pub drop-drop : (a k : ℕ) (xs : List A) → drop a (drop k xs) ≡ drop (k + a) xs
  drop-drop a zero xs = simp zero-add
  drop-drop a (suc k) [] = drop-nil a ∙ sym (drop-nil (suc k + a))
  drop-drop a (suc k) (x ∷ xs) = rw suc-add (drop-drop a k xs)

  pub window :
      (q vs : List A) (v : A) (cap : ℕ)
      → length q ≤ cap
      → let kept = drop (length q + 1 - cap) (q ++ v ∷ []) ++ vs in
        drop (length kept - cap) kept ≡ drop (length (q ++ v ∷ vs) - cap) (q ++ v ∷ vs)
  window q vs v cap le =
      let k = length q + 1 - cap in
      rw
        (
          ← drop-append k (q ++ v ∷ []) vs (omega (arith, length-append q (v ∷ []))),
          append_assoc q (v ∷ []) vs,
          drop-drop,
        )
        (ap (λ m. drop m (q ++ v ∷ vs))
          (omega (arith, length-append q (v ∷ vs), length-drop k (q ++ v ∷ vs))))

  pub newest :
      (blank : A) (s : List A) (m : ℕ)
      → (if leb (length s) m then s else copy (replicate m blank) 0 (drop (length s - m) s))
        ≡ drop (length s - m) s
  newest blank s m = elim (Bool-cases (leb (length s) m)) [
    | inl e ↦ let all : length s - m ≡ 0 = ground arith in rw (e, all)
    | inr e ↦ rw e (
        copy_all (replicate m blank) (drop (length s - m) s)
          (ground (arith, length-replicate m blank, length-drop (length s - m) s)))
  ]
