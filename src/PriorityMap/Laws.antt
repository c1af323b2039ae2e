-- ===== src/PriorityMap/Laws.antt =====
-- The laws of the map of queues that the wait queue rests on.
use ranked_semaphore.Common.{
  ℕ, ◌+◌, ◌≡◌, refl, false, not, is_empty, none, some, List, [], ◌∷◌, length, length-append, arith,
  if◌then◌else◌,
}
use ranked_semaphore.Common.Int.{ℤ, eqb_ℤ, eqb_ℤ_iff}
use ranked_semaphore.PriorityMap.{
  PriorityQueues, get, insert, remove, get_mut_or_create, has_non_empty_queue, drain_all_waiters,
}

-- No priority has two entries.
abbrev pub IsUnique : PriorityQueues → Type 0
IsUnique [] = Unit
IsUnique ((k, q) ∷ m) = (get k m ≡ none) × IsUnique m

-- The number of waiters in the map.
unfoldable pub total : PriorityQueues → ℕ
total m = length (drain_all_waiters m)

pub get-insert :
    (j p : ℤ) (q : List ℕ) (m : PriorityQueues)
    → get j (insert p q m) ≡ (if eqb_ℤ p j then some q else get j m)
unfolding get insert
get-insert j p q [] = refl
get-insert j p q ((k, r) ∷ m) =
    ground (arith, eqb_ℤ_iff k p, eqb_ℤ_iff p j, eqb_ℤ_iff k j, get-insert j p q m)

pub get-remove :
    (j p : ℤ) (m : PriorityQueues)
    → IsUnique m
    → get j (remove p m) ≡ (if eqb_ℤ p j then none else get j m)
unfolding get remove
get-remove j p [] u = ground arith
get-remove j p ((k, r) ∷ m) u =
    ground (arith, eqb_ℤ_iff k p, eqb_ℤ_iff p j, eqb_ℤ_iff k j, get-remove j p m u.1)

pub has_non_empty_queue-insert :
    (j p : ℤ) (q : List ℕ) (m : PriorityQueues)
    → has_non_empty_queue j (insert p q m)
      ≡ (if eqb_ℤ p j then not (is_empty q) else has_non_empty_queue j m)
unfolding has_non_empty_queue
has_non_empty_queue-insert j p q m = ground (arith, get-insert j p q m)

pub has_non_empty_queue-remove :
    (j p : ℤ) (m : PriorityQueues)
    → IsUnique m
    → has_non_empty_queue j (remove p m) ≡ (if eqb_ℤ p j then false else has_non_empty_queue j m)
unfolding has_non_empty_queue
has_non_empty_queue-remove j p m u = ground (arith, get-remove j p m u)

pub insert-IsUnique :
    (p : ℤ) (q : List ℕ) (m : PriorityQueues) → IsUnique m → IsUnique (insert p q m)
unfolding get insert
insert-IsUnique p q [] u = (refl, tt)
insert-IsUnique p q ((k, r) ∷ m) u =
    ground (arith, eqb_ℤ_iff k p, eqb_ℤ_iff p k, get-insert k p q m, insert-IsUnique p q m u.1)

pub remove-IsUnique : (p : ℤ) (m : PriorityQueues) → IsUnique m → IsUnique (remove p m)
unfolding get remove
remove-IsUnique p [] u = tt
remove-IsUnique p ((k, r) ∷ m) u =
    ground (arith, eqb_ℤ_iff k p, eqb_ℤ_iff p k, get-remove k p m u.1, remove-IsUnique p m u.1)

-- Replacing a queue changes the total by the difference of the lengths.
pub total-insert :
    (p : ℤ) (q : List ℕ) (m : PriorityQueues)
    → total (insert p q m) + length (get_mut_or_create p m) ≡ total m + length q
unfolding total drain_all_waiters get_mut_or_create get insert
total-insert p q [] = omega (arith, length-append q [])
total-insert p q ((k, r) ∷ m) = ground (
  arith,
  length-append q (drain_all_waiters m),
  length-append r (drain_all_waiters m),
  length-append r (drain_all_waiters (insert p q m)),
  total-insert p q m,
)

pub total-remove :
    (p : ℤ) (m : PriorityQueues) → total (remove p m) + length (get_mut_or_create p m) ≡ total m
unfolding total drain_all_waiters get_mut_or_create get remove
total-remove p [] = omega arith
total-remove p ((k, r) ∷ m) = ground (
  arith,
  length-append r (drain_all_waiters m),
  length-append r (drain_all_waiters (remove p m)),
  total-remove p m,
)

-- A queue is no longer than all together.
pub get-le-total :
    (p : ℤ) (m : PriorityQueues) → (r : ℕ) × (total m ≡ length (get_mut_or_create p m) + r)
get-le-total p m = (total (remove p m), omega (arith, total-remove p m))
