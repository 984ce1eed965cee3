-- ===== src/Ring/Invariant.antt =====
-- The shape of a ring buffer between two calls.
use webox.Prelude.{
  ℕ, zero, suc, ◌+◌, ◌%◌, ◌<◌, ◌≡◌, List, [], ◌∷◌, ◌⊎◌, inl, inr, true, false, arith, length,
  length-set, length-replicate, Bool-cases,
}
use webox.Prelude.Int.{ℤ, pos, negsuc}
use native.Mathlib.Nat.{mod-eq_of_lt, mod_self}
use native.Mathlib.Decide.{dec_lt}
use webox.Ring.{default_ring_capacity, RingBuffer, new_ring_buffer, push, push_all}

-- The next write slot, in one of two ways.
pub mod-suc :
    (h c : ℕ) → h < c → ((h + 1) % c ≡ h + 1) × (h + 1 < c) ⊎ ((h + 1) % c ≡ 0) × (h + 1 ≡ c)
mod-suc h c lt = elim (dec_lt (h + 1) c) [
  | yes p ↦ inl (mod-eq_of_lt p, p)
  | no p ↦ let e : h + 1 ≡ c = omega arith in inr (rw e (mod_self c), e)
]

module _ {ℓ} {A : Type ℓ} where
  pub record Inv (r : RingBuffer A) : Type 0 where
    pub sized : length r.buf ≡ r.cap
    pub head_in : r.head < r.cap
    pub full_count : r.full ≡ true → r.count ≡ r.cap
    pub growing_below : r.full ≡ false → r.count < r.cap
    pub growing_head : r.full ≡ false → r.head ≡ r.count

  pub new_ring_buffer-Inv : (blank : A) (capacity : ℤ) → Inv (new_ring_buffer blank capacity)
  unfolding new_ring_buffer
  new_ring_buffer-Inv blank (pos zero) =
      ground (arith, length-replicate default_ring_capacity blank)
  new_ring_buffer-Inv blank (pos (suc n)) = ground (arith, length-replicate (suc n) blank)
  new_ring_buffer-Inv blank (negsuc n) =
      ground (arith, length-replicate default_ring_capacity blank)

  pub push-Inv : (r : RingBuffer A) (v : A) → Inv r → Inv (push r v)
  unfolding push
  push-Inv r v i = elim (Bool-cases r.full) [
    | inl f ↦ rw f (ground (arith, length-set r.buf r.head v, mod-suc r.head r.cap i.head_in))
    | inr f ↦ rw f (ground (arith, length-set r.buf r.head v, mod-suc r.head r.cap i.head_in))
  ]

  pub push_all-Inv : (r : RingBuffer A) (vs : List A) → Inv r → Inv (push_all r vs)
  unfolding push_all
  push_all-Inv r [] i = i
  push_all-Inv r (v ∷ vs) i = push_all-Inv (push r v) vs (push-Inv r v i)
