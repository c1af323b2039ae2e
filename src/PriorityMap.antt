-- ===== src/PriorityMap.antt =====
-- ranked-semaphore/src/wait_queue/queue.rs, `PriorityQueues` and `PriorityQueueExt`: the hash map
-- from priorities to queues of waiters, as an association list in an order of its own, and what the
-- source uses of `HashMap`.
pub mod Laws
pub mod Hashing
use ranked_semaphore.Common.{
  ℕ, Bool, true, false, not, Option, none, some, List, [], ◌∷◌, ◌++◌, is_empty, if◌then◌else◌,
}
use ranked_semaphore.Common.Int.{ℤ, eqb_ℤ}

abbrev pub PriorityQueues : Type 0
PriorityQueues = List (ℤ × List ℕ)

-- `HashMap::get`, `insert` and `remove`.
unfoldable pub get : ℤ → PriorityQueues → Option (List ℕ)
get p [] = none
get p ((k, q) ∷ m) = if eqb_ℤ k p then some q else get p m

unfoldable pub insert : ℤ → List ℕ → PriorityQueues → PriorityQueues
insert p q [] = (p, q) ∷ []
insert p q ((k, r) ∷ m) = if eqb_ℤ k p then (p, q) ∷ m else (k, r) ∷ insert p q m

unfoldable pub remove : ℤ → PriorityQueues → PriorityQueues
remove p [] = []
remove p ((k, r) ∷ m) = if eqb_ℤ k p then m else (k, r) ∷ remove p m

-- The queue that `get_mut_or_create` hands out; a write through it is an `insert`.
unfoldable pub get_mut_or_create : ℤ → PriorityQueues → List ℕ
get_mut_or_create p m = elim (get p m) [ none ↦ [] | some q ↦ q ]

unfoldable pub has_non_empty_queue : ℤ → PriorityQueues → Bool
has_non_empty_queue p m = elim (get p m) [ none ↦ false | some q ↦ not (is_empty q) ]

-- All waiters; the map is left empty.
unfoldable pub drain_all_waiters : PriorityQueues → List ℕ
drain_all_waiters [] = []
drain_all_waiters ((k, q) ∷ m) = q ++ drain_all_waiters m
