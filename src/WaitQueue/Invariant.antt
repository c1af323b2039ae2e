-- ===== src/WaitQueue/Invariant.antt =====
-- queue.rs: the well-formedness of the wait queue, and the operations other than the selection.
use ranked_semaphore.Common.{
  ℕ, ◌+◌, ◌<◌, ◌≡◌, refl, true, some, List, [], ◌∷◌, length, length-append, arith, if◌then◌else◌,
  ltb, Option-cases, inl, inr,
}
use ranked_semaphore.Common.Int.{ℤ, eqb_ℤ_iff}
use ranked_semaphore.Common.Word.{usize_mod, sub_usize}
use ranked_semaphore.Config.{QueueStrategy, fifo, lifo, PriorityConfig, resolve_strategy}
use ranked_semaphore.Waiter.{Store, new_handle}
use ranked_semaphore.PriorityMap.{
  PriorityQueues, get, insert, get_mut_or_create, has_non_empty_queue, drain_all_waiters,
}
use ranked_semaphore.PriorityMap.Laws.{
  IsUnique, total, insert-IsUnique, total-insert, has_non_empty_queue-insert,
}
use ranked_semaphore.PriorityHeap.Laws.{contains, IsDescending, contains-push, push-IsDescending}
use ranked_semaphore.WaitQueue.{
  WaitQueue, new, enqueue, insert_waiter_optimized, push_waiter, remove_first, remove_waiter, close,
}

-- The parts of the invariant that the loops carry: every priority with a waiter is in the heap.
abbrev pub IsCovered : PriorityQueues → List ℤ → Type 0
IsCovered m active = (p : ℤ) → has_non_empty_queue p m ≡ true → contains p active ≡ true

pub record IsValid (q : WaitQueue) : Type 0 where
  pub counted : q.total_waiters ≡ total q.priority_queues
  pub small : total q.priority_queues < usize_mod
  pub unique : IsUnique q.priority_queues
  pub descending : IsDescending q.active_priorities
  pub covered : IsCovered q.priority_queues q.active_priorities

pub new-IsValid : (c : PriorityConfig) → IsValid (new c)
unfolding new total drain_all_waiters has_non_empty_queue get
new-IsValid c = record {
  counted = refl;
  small = omega arith;
  unique = tt;
  descending = tt;
  covered = λ p h. cc;
}

length-enqueue : (s : QueueStrategy) (i : ℕ) (q : List ℕ) → length (enqueue s i q) ≡ length q + 1
length-enqueue fifo i q = omega (arith, length-append q (i ∷ []))
length-enqueue lifo i q = omega arith

-- A waiter that enters keeps the queue well formed, as long as fewer than 2^64 - 1 wait.
pub insert-IsValid :
    (q : WaitQueue) (i : ℕ) (p : ℤ)
    → IsValid q
    → q.total_waiters + 1 < usize_mod
    → IsValid (insert_waiter_optimized q i p)
unfolding insert_waiter_optimized
insert-IsValid q i p v room = record {
  counted = ground (arith, grows, v.counted);
  small = ground (arith, grows, v.counted);
  unique = insert-IsUnique p _ q.priority_queues v.unique;
  descending = ground (arith, v.descending, push-IsDescending p q.active_priorities);
  covered = λ j h. ground (
    arith,
    has_non_empty_queue-insert j p (enqueue strategy i old) q.priority_queues,
    eqb_ℤ_iff p j,
    contains-push j p q.active_priorities,
    v.covered j,
  );
}
  where
    strategy : QueueStrategy
    strategy = resolve_strategy q.config p

    old : List ℕ
    old = get_mut_or_create p q.priority_queues

    grows :
        total (insert p (enqueue strategy i old) q.priority_queues) ≡ total q.priority_queues + 1
    grows = omega (
      arith,
      total-insert p (enqueue strategy i old) q.priority_queues,
      length-enqueue strategy i old,
    )

pub push_waiter-IsValid :
    (q : WaitQueue) (m : Store) (needed : ℕ) (p : ℤ)
    → IsValid q
    → q.total_waiters + 1 < usize_mod
    → IsValid (push_waiter q m needed p).1
unfolding push_waiter new_handle
push_waiter-IsValid q m needed p v room = insert-IsValid q m.next p v room

pub close-IsValid : (q : WaitQueue) (m : Store) → IsValid (close q m).0
unfolding close total drain_all_waiters has_non_empty_queue get
close-IsValid q m = record {
  counted = refl;
  small = omega arith;
  unique = tt;
  descending = tt;
  covered = λ p h. cc;
}

length-remove_first :
    (i : ℕ) (is js : List ℕ) → remove_first i is ≡ some js → length is ≡ length js + 1
unfolding remove_first
length-remove_first i [] js e = cc
length-remove_first i (j ∷ is) [] e = ground (arith, length-remove_first i is)
length-remove_first i (j ∷ is) (k ∷ js) e = ground (arith, length-remove_first i is js)

module _ (q : WaitQueue) (p : ℤ) (old rest : List ℕ) (v : IsValid q)
    (found : get p q.priority_queues ≡ some old) (shorter : length old ≡ length rest + 1) where
  shrinks : total (insert p rest q.priority_queues) + 1 ≡ total q.priority_queues
  unfolding get_mut_or_create
  shrinks = ground (arith, total-insert p rest q.priority_queues)

  still-IsCovered : IsCovered (insert p rest q.priority_queues) q.active_priorities
  unfolding has_non_empty_queue
  still-IsCovered j h =
      ground
        (arith, has_non_empty_queue-insert j p rest q.priority_queues, eqb_ℤ_iff p j, v.covered j)

  shrink-IsValid : IsValid (record q {
    priority_queues = insert p rest q.priority_queues;
    total_waiters = if ltb 0 q.total_waiters then sub_usize q.total_waiters 1 else q.total_waiters;
  })
  shrink-IsValid = record {
    counted = ground (arith, shrinks, v.counted, v.small);
    small = omega (arith, shrinks, v.small);
    unique = insert-IsUnique p rest q.priority_queues v.unique;
    descending = v.descending;
    covered = still-IsCovered;
  }

pub remove_waiter-IsValid :
    (q : WaitQueue) (m : Store) (i : ℕ) → IsValid q → IsValid (remove_waiter q m i)
unfolding remove_waiter
remove_waiter-IsValid q m i v =
    let p = (m.cell i).priority in
    elim (Option-cases (get p q.priority_queues)) [
      | inl e ↦ rw (e, remove_waiter) v
      | inr (old, e) ↦ elim (Option-cases (remove_first i old)) [
        | inl f ↦ rw (e, f, remove_waiter) v
        | inr (rest, f) ↦
            rw (e, f, remove_waiter)
              (shrink-IsValid q p old rest v e (length-remove_first i old rest f))
      ]
    ]
