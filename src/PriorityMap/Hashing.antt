-- ===== src/PriorityMap/Hashing.antt =====
-- queue.rs, `PriorityQueues`: the order of the entries of the hash map, which `HashMap` leaves open.
use ranked_semaphore.Common.{ℕ, ◌≡◌, List, arith, refl}
use ranked_semaphore.Common.Int.{ℤ}
use ranked_semaphore.PriorityMap.{
  PriorityQueues, get, insert, remove, get_mut_or_create, has_non_empty_queue,
}
use ranked_semaphore.PriorityMap.Laws.{
  IsUnique, get-insert, get-remove, insert-IsUnique, remove-IsUnique,
}

-- Two lists of entries are one map.
pub record SameMap (m n : PriorityQueues) : Type 0 where
  pub found : (p : ℤ) → get p m ≡ get p n
  pub unique : IsUnique m
  pub unique' : IsUnique n

pub insert-SameMap :
    (p : ℤ) (is : List ℕ) (m n : PriorityQueues)
    → SameMap m n
    → SameMap (insert p is m) (insert p is n)
insert-SameMap p is m n h = record {
  found = λ r. ground (arith, get-insert r p is m, get-insert r p is n, h.found r);
  unique = insert-IsUnique p is m h.unique;
  unique' = insert-IsUnique p is n h.unique';
}

pub remove-SameMap :
    (p : ℤ) (m n : PriorityQueues) → SameMap m n → SameMap (remove p m) (remove p n)
remove-SameMap p m n h = record {
  found = λ r. ground (arith, get-remove r p m h.unique, get-remove r p n h.unique', h.found r);
  unique = remove-IsUnique p m h.unique;
  unique' = remove-IsUnique p n h.unique';
}

pub queue-SameMap :
    (p : ℤ) (m n : PriorityQueues) → SameMap m n → get_mut_or_create p m ≡ get_mut_or_create p n
unfolding get_mut_or_create
queue-SameMap p m n h = rw (get_mut_or_create, h.found p) refl

pub has-SameMap :
    (p : ℤ) (m n : PriorityQueues) → SameMap m n → has_non_empty_queue p m ≡ has_non_empty_queue p n
unfolding has_non_empty_queue
has-SameMap p m n h = rw (has_non_empty_queue, h.found p) refl
