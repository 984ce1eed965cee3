-- ===== src/Ssh/Pool/Counts.antt =====
-- How often a client stands in the lists of a host, before and after the functions on them.
use webox.Prelude.{
  ◌≡◌, refl, ap, ◌⊎◌, inl, inr, Bool-cases, ℕ, suc, ◌+◌, ◌≤◌, Bool, true, false, List, [], ◌∷◌,
  ◌++◌, none, some, if◌then◌else◌, ◌==◌, length, arith,
}
use webox.Prelude.Int.{ℤ, pos, ◌+ℤ◌, ◌-ℤ◌}
use webox.Ssh.Host.{
  Client, PooledClient, member, add, delete, clients_of, split_expired, count_down, last_idle,
}

abbrev pub one_if : Bool → ℕ
one_if true = 1
one_if false = 0

unfoldable pub count : Client → List Client → ℕ
count c [] = 0
count c (d ∷ ds) = one_if (d == c) + count c ds

pub count-append : (c : Client) (xs ys : List Client) → count c (xs ++ ys) ≡ count c xs + count c ys
unfolding count
count-append c [] ys = omega arith
count-append c (x ∷ xs) ys = omega (arith, count-append c xs ys)

pub count-member : (c : Client) (ds : List Client) → member c ds ≡ false → count c ds ≡ 0
unfolding count
count-member c [] h = refl
count-member c (d ∷ ds) h = ground (arith, count-member c ds)

pub member-count : (c : Client) (ds : List Client) → member c ds ≡ true → 1 ≤ count c ds
unfolding count
member-count c [] h = cc
member-count c (d ∷ ds) h = ground (arith, member-count c ds)

pub add-missing : (c : Client) (ds : List Client) → count c ds ≡ 0 → add c ds ≡ ds ++ c ∷ []
unfolding add
add-missing c ds h = elim (Bool-cases (member c ds)) [
  | inl q ↦ absurd (omega (arith, member-count c ds q, h))
  | inr q ↦ rw q refl
]

pub count-delete :
    (c d : Client) (ds : List Client) → count c (delete d ds) ≡ (if d == c then 0 else count c ds)
unfolding count delete
count-delete c d [] = ground arith
count-delete c d (e ∷ ds) = ground (arith, count-delete c d ds)

pub length-delete : (d : Client) (ds : List Client) → length (delete d ds) + count d ds ≡ length ds
unfolding count delete
length-delete d [] = refl
length-delete d (e ∷ ds) = ground (arith, length-delete d ds)

pub clients_of-append :
    (is js : List PooledClient) → clients_of (is ++ js) ≡ clients_of is ++ clients_of js
clients_of-append [] js = refl
clients_of-append (i ∷ is) js = ap (◌∷◌ i.client) (clients_of-append is js)

pub count-split_expired :
    (c : Client) (timeout now : ℤ) (is : List PooledClient)
    → count c (clients_of (split_expired timeout now is).0)
        + count c (split_expired timeout now is).1
      ≡ count c (clients_of is)
unfolding count split_expired
count-split_expired c timeout now [] = refl
count-split_expired c timeout now (i ∷ is) = ground (arith, count-split_expired c timeout now is)

pub length-split_expired :
    (timeout now : ℤ) (is : List PooledClient)
    → length (split_expired timeout now is).0 + length (split_expired timeout now is).1 ≡ length is
unfolding split_expired
length-split_expired timeout now [] = refl
length-split_expired timeout now (i ∷ is) = ground (arith, length-split_expired timeout now is)

pub pred_pos : (n : ℕ) → pos (suc n) -ℤ pos 1 ≡ pos n
unfolding ◌-ℤ◌
pred_pos n = ground arith

pub suc_pos : (n : ℕ) → pos n +ℤ pos 1 ≡ pos (suc n)
unfolding ◌+ℤ◌
suc_pos n = ground arith

pub count_down_pos :
    (n m : ℕ) (cs : List Client) → m ≡ n + length cs → count_down (pos m) cs ≡ pos n
unfolding count_down
count_down_pos n m [] h = ap pos (omega arith)
count_down_pos n m (c ∷ cs) h = rw (count_down_pos (suc n) m cs (omega arith), pred_pos n) refl

-- No idle client, or the last one beside those before it.
pub last_idle-cases :
    (is : List PooledClient)
    → ((last_idle is ≡ none) × (is ≡ []))
      ⊎ ((before : List PooledClient) × (i : PooledClient) × (last_idle is ≡ some (before, i))
          × (is ≡ before ++ i ∷ []))
unfolding last_idle
last_idle-cases [] = inl (refl, refl)
last_idle-cases (i ∷ is) = elim (last_idle-cases is) [
  | inl (q, e) ↦ inr ([], i, rw q refl, rw e refl)
  | inr (before, l, q, e) ↦ inr (i ∷ before, l, rw q refl, rw e refl)
]
