-- ===== src/Ring.antt =====
-- tui/components/ringbuffer.go: the bounded buffer behind the live-log view. The methods hold a
-- mutex from end to end, so each is one atomic function on the state.
pub mod Invariant
pub mod Slices
pub mod Queue
mod Tests
use webox.Prelude.{
  ℕ, zero, suc, ◌+◌, ◌-◌, ◌%◌, Bool, true, false, List, [], ◌∷◌, if◌then◌else◌, neg, ◌==◌, leb,
  length, set, take, drop, replicate,
}
use webox.Prelude.Int.{ℤ, pos, leb_ℤ, pos_part}

abbrev pub default_ring_capacity : ℕ
default_ring_capacity = 1000

pub record RingBuffer {ℓ} (A : Type ℓ) : Type ℓ where
  pub buf : List A
  pub cap : ℕ
  pub head : ℕ  -- index of the next write slot
  pub full : Bool  -- true after the buffer has wrapped at least once
  pub count : ℕ  -- the field `length`: number of populated slots

module _ {ℓ} {A : Type ℓ} where
  -- Go's `copy(out[i:], src)`: as many elements as both hold.
  pub copy : List A → ℕ → List A → List A
  copy [] i src = []
  copy (x ∷ out) (suc i) src = x ∷ copy out i src
  copy (x ∷ out) zero [] = x ∷ out
  copy (x ∷ out) zero (s ∷ src) = s ∷ copy out zero src

  -- `blank` is the zero value of the element type, which `make` fills a slice with.
  pub new_ring_buffer : A → ℤ → RingBuffer A
  new_ring_buffer blank capacity = record {
    buf = replicate slots blank;
    cap = slots;
    head = 0;
    full = false;
    count = 0;
  }
    where
      slots : ℕ
      slots = if leb_ℤ capacity (pos 0) then default_ring_capacity else pos_part capacity

  pub push : RingBuffer A → A → RingBuffer A
  push r value =
      let s = record r { buf = set r.buf r.head value; head = (r.head + 1) % r.cap } in
      if r.full then s else record s { count = r.count + 1; full = r.count + 1 == r.cap }

  pub snapshot : A → RingBuffer A → List A
  unfolding copy
  snapshot blank r =
      let out = replicate r.count blank in
      if neg r.full
      then copy out 0 (take r.count r.buf)
      else copy (copy out 0 (drop r.head r.buf)) (r.cap - r.head) (take r.head r.buf)

  pub tail : A → RingBuffer A → ℤ → List A
  unfolding snapshot
  tail blank r n =
      let snap = snapshot blank r in
      if leb_ℤ n (pos 0)
      then []
      else if leb (length snap) (pos_part n)
      then snap
      else copy (replicate (pos_part n) blank) 0 (drop (length snap - pos_part n) snap)

  pub push_all : RingBuffer A → List A → RingBuffer A
  push_all r [] = r
  push_all r (v ∷ vs) = push_all (push r v) vs
