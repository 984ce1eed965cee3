-- ===== src/Ring/Queue.antt =====
-- A ring buffer refines a queue that keeps its newest `cap` values.
use webox.Prelude.{
  true, zero, suc, ◌+◌, ◌-◌, ◌%◌, ◌<◌, ◌≤◌, ◌≡◌, refl, ◌∙◌, inl, inr, false, List, [], ◌∷◌, ◌++◌,
  arith, length, take, drop, replicate, length-replicate, drop-length, append-nil, Bool-cases,
  if◌then◌else◌, ◌==◌,
}
use native.Mathlib.Nat.{mod_self}
use native.Mathlib.Numerals.{add-one}
use webox.Prelude.Int.{ℤ, pos, negsuc, pos_part, leb_ℤ}
use webox.Ring.{RingBuffer, new_ring_buffer, push, snapshot, tail, push_all}
use webox.Ring.Invariant.{Inv, push-Inv, push_all-Inv, new_ring_buffer-Inv}
use webox.Ring.Slices.{
  copy_all, length-take, take-set, length-rotated, rotated_lem, set_last, rotate_push, window,
  newest,
}

module _ {ℓ} {A : Type ℓ} where
  -- What a buffer holds, oldest first.
  abbrev pub contents : RingBuffer A → List A
  contents r = if r.full then drop r.head r.buf ++ take r.head r.buf else take r.count r.buf

  pub length-contents : (r : RingBuffer A) → Inv r → length (contents r) ≡ r.count
  length-contents r i = elim (Bool-cases r.full) [
    | inl f ↦ rw f (omega (arith, length-rotated r.buf r.head (omega arith), i.full_count f))
    | inr f ↦ rw f (length-take r.count r.buf (omega (arith, i.growing_below f)))
  ]

  -- `Snapshot` copies out the contents, oldest first.
  pub snapshot-contents : (blank : A) (r : RingBuffer A) → Inv r → snapshot blank r ≡ contents r
  unfolding snapshot
  snapshot-contents blank r i = elim (Bool-cases r.full) [
    | inl f ↦ rw f (
        rotated_lem (replicate r.count blank) r.buf r.head r.cap i.sized i.head_in
          (length-replicate r.count blank ∙ i.full_count f))
    | inr f ↦ rw f (
        copy_all (replicate r.count blank) (take r.count r.buf) (
          omega (
            arith,
            length-replicate r.count blank,
            length-take r.count r.buf (omega (arith, i.growing_below f)),
          )))
  ]

  contents-push :
      (r : RingBuffer A) (v : A)
      → Inv r
      → contents (push r v) ≡ drop (length (contents r) + 1 - r.cap) (contents r ++ v ∷ [])
  unfolding push
  contents-push r v i = elim (Bool-cases r.full) [
    | inl f ↦
        let one : length (drop r.head r.buf ++ take r.head r.buf) + 1 - r.cap ≡ 1 =
          omega (arith, length-rotated r.buf r.head (omega arith)) in
        rw (f, one) (rotate_push r.buf r.head r.cap v i.sized i.head_in)
    | inr f ↦
        let below : r.count < r.cap = i.growing_below f in
        let none_lost : length (take r.count r.buf) + 1 - r.cap ≡ 0 =
          omega (arith, length-take r.count r.buf (omega arith)) in
        rw (f, none_lost, i.growing_head f)
          (elim (Bool-cases (r.count + 1 == r.cap)) [
            | inl e ↦
                let last : r.count + 1 ≡ r.cap = ground arith in
                let wrap : (r.count + 1) % r.cap ≡ 0 = rw last (mod_self r.cap) in
                rw (e, wrap, append-nil) (set_last r.buf r.count v (omega arith))
            | inr e ↦ rw (e, add-one) (take-set r.count r.buf v (omega arith))
          ])
  ]

  -- A `Push` in any shape the buffer can have appends the value to the snapshot, and drops the
  -- oldest value exactly if the snapshot would outgrow the capacity.
  pub snapshot-push :
      (blank : A) (r : RingBuffer A) (v : A)
      → Inv r
      → snapshot blank (push r v)
        ≡ drop (length (snapshot blank r) + 1 - r.cap) (snapshot blank r ++ v ∷ [])
  snapshot-push blank r v i =
      rw (snapshot-contents blank (push r v) (push-Inv r v i), snapshot-contents blank r i)
        (contents-push r v i)

  cap-push : (r : RingBuffer A) (v : A) → (push r v).cap ≡ r.cap
  unfolding push
  cap-push r v = ground arith

  count-le-cap : (r : RingBuffer A) → Inv r → r.count ≤ r.cap
  count-le-cap r i = ground arith

  contents-push_all :
      (r : RingBuffer A) (vs : List A)
      → Inv r
      → contents (push_all r vs) ≡ drop (length (contents r ++ vs) - r.cap) (contents r ++ vs)
  unfolding push_all
  contents-push_all r [] i =
      let fits : length (contents r) - r.cap ≡ 0 =
        omega (arith, length-contents r i, count-le-cap r i) in
      rw append-nil (rw fits refl)
  contents-push_all r (v ∷ vs) i =
      contents-push_all (push r v) vs (push-Inv r v i)
      ∙ rw (cap-push r v, contents-push r v i)
          (window (contents r) vs v r.cap (omega (arith, length-contents r i, count-le-cap r i)))

  -- After any values whatever are pushed onto a new buffer, the snapshot is the newest of them, as
  -- many as the capacity allows.
  pub snapshot-push_all :
      (blank : A) (capacity : ℤ) (vs : List A)
      → let r = new_ring_buffer blank capacity in
        snapshot blank (push_all r vs) ≡ drop (length vs - r.cap) vs
  unfolding new_ring_buffer
  snapshot-push_all blank capacity vs =
      let r = new_ring_buffer blank capacity in
      let i : Inv r = new_ring_buffer-Inv blank capacity in
      snapshot-contents blank (push_all r vs) (push_all-Inv r vs i) ∙ contents-push_all r vs i

  -- `Tail` returns the `n` newest values of the snapshot, all of them where it has fewer, and none
  -- for a negative `n`.
  pub tail-snapshot :
      (blank : A) (r : RingBuffer A) (n : ℤ)
      → tail blank r n ≡ drop (length (snapshot blank r) - pos_part n) (snapshot blank r)
  unfolding tail
  tail-snapshot blank r (pos zero) =
      let nothing : length (snapshot blank r) - 0 ≡ length (snapshot blank r) = omega arith in
      rw (nothing, drop-length)
  tail-snapshot blank r (pos (suc m)) =
      let some_asked : leb_ℤ (pos (suc m)) (pos 0) ≡ false = ground arith in
      rw some_asked (newest blank (snapshot blank r) (suc m))
  tail-snapshot blank r (negsuc m) =
      let negative : leb_ℤ (negsuc m) (pos 0) ≡ true = ground arith in
      let nothing : length (snapshot blank r) - 0 ≡ length (snapshot blank r) = omega arith in
      rw (negative, nothing, drop-length)
