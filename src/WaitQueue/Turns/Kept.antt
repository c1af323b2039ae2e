-- ===== src/WaitQueue/Turns/Kept.antt =====
-- queue.rs: two waiters of one priority, when a third is pushed and when the queue is closed.
use ranked_semaphore.Common.{
  ℕ, refl, ◌≢◌, List, [], ◌∷◌, ◌++◌, ◌==◌, arith, Bool-cases, Option-cases, inl, inr,
}
use ranked_semaphore.Common.Int.{ℤ}
use ranked_semaphore.Waiter.{Store, new_handle}
use ranked_semaphore.Config.{QueueStrategy, fifo, lifo, resolve_strategy}
use ranked_semaphore.PriorityMap.{PriorityQueues, get, get_mut_or_create}
use ranked_semaphore.WaitQueue.{WaitQueue, enqueue, insert_waiter_optimized, push_waiter}
use ranked_semaphore.WaitQueue.Ready.{member}
use ranked_semaphore.WaitQueue.Turns.{before, Line, Lines, insert-Lines}

module _ (i j : ℕ) (apart : i ≢ j) where
  pub empty-Lines : Lines i j apart []
  unfolding Lines get
  empty-Lines p is e = cc

  Line-last : (k : ℕ) (is : List ℕ) → k ≢ j → Line i j apart is → Line i j apart (is ++ k ∷ [])
  unfolding Line before member
  Line-last k [] ne h = ground arith
  Line-last k (x ∷ xs) ne h = elim (Bool-cases (x == i)) [
    | inl e ↦ ground arith
    | inr e ↦ let rest = Line-last k xs ne (ground arith) in ground arith
  ]

  enqueue-Line :
      (s : QueueStrategy) (k : ℕ) (is : List ℕ)
      → k ≢ j
      → Line i j apart is
      → Line i j apart (enqueue s k is)
  unfolding Line before member
  enqueue-Line fifo k is ne h = Line-last k is ne h
  enqueue-Line lifo k is ne h = ground arith

  queue-Line :
      (p : ℤ) (queues : PriorityQueues)
      → Lines i j apart queues
      → Line i j apart (get_mut_or_create p queues)
  unfolding Lines Line member get_mut_or_create
  queue-Line p queues lines = elim (Option-cases (get p queues)) [
    | inl e ↦ rw (get_mut_or_create, e) refl
    | inr (is, e) ↦ rw (get_mut_or_create, e) (lines p is e)
  ]

  -- A third waiter leaves the two as they stand.
  pub push-Lines :
      (q : WaitQueue) (m : Store) (needed : ℕ) (p : ℤ)
      → m.next ≢ j
      → Lines i j apart q.priority_queues
      → Lines i j apart (push_waiter q m needed p).1.priority_queues
  unfolding push_waiter insert_waiter_optimized new_handle
  push-Lines q m needed p ne lines =
      insert-Lines i j apart p _ q.priority_queues
        (enqueue-Line (resolve_strategy q.config p) m.next _ ne
          (queue-Line p q.priority_queues lines))
        lines
