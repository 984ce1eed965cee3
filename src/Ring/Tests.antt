-- ===== src/Ring/Tests.antt =====
-- Runs of a ring buffer of three slots.
use webox.Prelude.{ℕ, ◌≡◌, refl, [], ◌∷◌}
use webox.Prelude.Int.{pos}
use webox.Ring.{RingBuffer, new_ring_buffer, push, push_all, snapshot}
use webox.Ring.Queue.{snapshot-push_all}

abbrev wrapped : RingBuffer ℕ
wrapped = push_all (new_ring_buffer 0 (pos 3)) (1 ∷ 2 ∷ 3 ∷ 4 ∷ [])

wrapped-snapshot : snapshot 0 wrapped ≡ 2 ∷ 3 ∷ 4 ∷ []
unfolding snapshot push_all push new_ring_buffer
wrapped-snapshot = refl

snapshot-push_all_example : snapshot 0 wrapped ≡ 2 ∷ 3 ∷ 4 ∷ []
unfolding new_ring_buffer
snapshot-push_all_example = snapshot-push_all 0 (pos 3) (1 ∷ 2 ∷ 3 ∷ 4 ∷ [])
