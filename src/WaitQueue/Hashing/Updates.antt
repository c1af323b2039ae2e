-- ===== src/WaitQueue/Hashing/Updates.antt =====
-- queue.rs: pushing, removing and closing, on two lists of entries of one map.
use mathlib.Core.List.{Perm}
use ranked_semaphore.Common.{ℕ, ◌≡◌, refl, sym, ◌∙◌, Option-cases, inl, inr}
use ranked_semaphore.Common.Int.{ℤ}
use ranked_semaphore.Waiter.{Store, new_handle}
use ranked_semaphore.PriorityMap.{PriorityQueues, get, drain_all_waiters}
use ranked_semaphore.PriorityMap.Hashing.{SameMap, insert-SameMap, queue-SameMap, has-SameMap}
use ranked_semaphore.WaitQueue
use ranked_semaphore.WaitQueue.{
  WaitQueue, push_waiter, insert_waiter_optimized, remove_waiter, remove_first, cancel_all,
}
use ranked_semaphore.WaitQueue.Select.{select_waiters_to_notify}
use ranked_semaphore.WaitQueue.Hashing.{rehashed, SameQueue, SameSelection, select-SameSelection}
use ranked_semaphore.WaitQueue.Hashing.Drained.{drained-SameMap}
use ranked_semaphore.WaitQueue.Hashing.Shuffled.{woken-Perm}
use ranked_semaphore.Semaphore.Closing.{cancel_all-cell}

module _ (q : WaitQueue) (n : PriorityQueues) (h : SameMap q.priority_queues n) where
  insert-SameQueue :
      (i : ℕ) (p : ℤ)
      → SameQueue (insert_waiter_optimized q i p) (insert_waiter_optimized (rehashed q n) i p)
  unfolding insert_waiter_optimized
  insert-SameQueue i p =
      rw (sym (queue-SameMap p q.priority_queues n h), sym (has-SameMap p q.priority_queues n h))
        (record { queues = insert-SameMap p _ q.priority_queues n h; others = refl })

  remove-SameQueue :
      (m : Store) (i : ℕ) → SameQueue (remove_waiter q m i) (remove_waiter (rehashed q n) m i)
  unfolding remove_waiter
  remove-SameQueue m i =
      let p = (m.cell i).priority in
      let kept : SameQueue q (rehashed q n) = record { queues = h; others = refl } in
      elim (Option-cases (get p q.priority_queues)) [
        | inl e ↦ rw (remove_waiter, e, sym (h.found p) ∙ e) kept
        | inr (queue, e) ↦ elim (Option-cases (remove_first i queue)) [
          | inl f ↦ rw (remove_waiter, e, sym (h.found p) ∙ e, f) kept
          | inr (rest, f) ↦
              rw (remove_waiter, e, sym (h.found p) ∙ e, f)
                (record { queues = insert-SameMap p rest q.priority_queues n h; others = refl })
        ]
      ]

  close-cell :
      (m : Store) (i : ℕ)
      → (cancel_all (drain_all_waiters q.priority_queues) m).0.cell i
        ≡ (cancel_all (drain_all_waiters n) m).0.cell i
  close-cell m i =
      rw
        (
          cancel_all-cell (drain_all_waiters q.priority_queues) m i,
          cancel_all-cell (drain_all_waiters n) m i,
          drained-SameMap i q.priority_queues n h,
        )
        refl

-- If two lists of entries are one map, in whatever order, then on a wait queue with the one or with
-- the other selecting with k permits leaves the same waiters and gives the same wake list and the
-- same number of permits, pushing gives the same handle and leaves the same waiters, and closing
-- leaves every waiter in the same state and wakes the same tasks, though maybe in another order. The
-- wait queues that selecting, pushing, removing and closing leave again differ at most in the order
-- of the entries.
pub operations-agree :
    (q : WaitQueue) (n : PriorityQueues) (m : Store) (k needs : ℕ) (p : ℤ) (i j : ℕ)
    → SameMap q.priority_queues n
    → let pushed = push_waiter q m needs p in
      let pushed' = push_waiter (rehashed q n) m needs p in
      let closed = WaitQueue.close q m in
      let closed' = WaitQueue.close (rehashed q n) m in
      SameSelection (select_waiters_to_notify q m k) (select_waiters_to_notify (rehashed q n) m k)
      × ((pushed.0 ≡ pushed'.0) × SameQueue pushed.1 pushed'.1 × (pushed.2 ≡ pushed'.2))
      × SameQueue (remove_waiter q m i) (remove_waiter (rehashed q n) m i)
      × (SameQueue closed.0 closed'.0
          × (closed.1.cell j ≡ closed'.1.cell j)
          × Perm closed.2 closed'.2)
unfolding push_waiter WaitQueue.close new_handle
operations-agree q n m k needs p i j h = (
  select-SameSelection q n h m k,
  (refl, insert-SameQueue q n h m.next p, refl),
  remove-SameQueue q n h m i,
  (
    record { queues = record { found = λ r. refl; unique = tt; unique' = tt }; others = refl },
    close-cell q n h m j,
    woken-Perm q.priority_queues n m h,
  ),
)
