-- ===== src/WaitQueue/Blocking.antt =====
-- queue.rs, `process_multiple_priorities_optimized`: the first waiter of the highest priority.
use ranked_semaphore.Common.{
  ℕ, ◌<◌, ◌≡◌, refl, ◌∙◌, not, ◌||◌, some, List, [], ◌∷◌, ◌==◌, lt→ltb, Bool-cases, inl, inr,
}
use ranked_semaphore.Common.Int.{ℤ}
use ranked_semaphore.Waker
use ranked_semaphore.Waker.{can_push}
use ranked_semaphore.Waiter.{Store}
use ranked_semaphore.PriorityMap.{PriorityQueues, get}
use ranked_semaphore.PriorityHeap
use ranked_semaphore.WaitQueue.{WaitQueue}
use ranked_semaphore.WaitQueue.Select.{
  Batch, serve_levels, select_multiple, select_by, select_waiters_to_notify, start,
}

serve_levels-stop :
    (p : ℤ) (ps : List ℤ) (m : PriorityQueues) (b : Batch) (i : ℕ) (is : List ℕ)
    → get p m ≡ some (i ∷ is)
    → b.available < (b.store.cell i).permits_needed
    → serve_levels (p ∷ ps) m b []
      ≡ record { active = p ∷ ps; queues = m; batch = b; to_restore = [] }
unfolding serve_levels
serve_levels-stop p ps m b i is e few =
    elim (Bool-cases (b.available == 0 || not (can_push b.wake_list))) [
      | inl s ↦ rw s refl
      | inr s ↦ rw (s, e, serve_levels, lt→ltb b.available (b.store.cell i).permits_needed few) refl
    ]

stop-active :
    (active : List ℤ) (p : ℤ) (ps : List ℤ) (m : PriorityQueues) (b : Batch) (i : ℕ) (is : List ℕ)
    → active ≡ p ∷ ps
    → get p m ≡ some (i ∷ is)
    → b.available < (b.store.cell i).permits_needed
    → serve_levels active m b []
      ≡ record { active = active; queues = m; batch = b; to_restore = [] }
stop-active active p ps m b i is a e few = rw a (serve_levels-stop p ps m b i is e few)

multiple_blocked :
    (q : WaitQueue) (m : Store) (n : ℕ) (p : ℤ) (ps : List ℤ) (i : ℕ) (is : List ℕ)
    → q.active_priorities ≡ p ∷ ps
    → get p q.priority_queues ≡ some (i ∷ is)
    → n < (m.cell i).permits_needed
    → select_multiple q (start q m n)
      ≡ record { queue = q; store = m; wake_list = Waker.new; assigned = 0 }
unfolding select_multiple PriorityHeap.push_all
multiple_blocked q m n p ps i is e f few =
    rw (stop-active q.active_priorities p ps q.priority_queues (start q m n) i is e f few) refl

pub select_by-several :
    (active : List ℤ) (p r : ℤ) (ps : List ℤ) (q : WaitQueue) (b : Batch)
    → active ≡ p ∷ r ∷ ps
    → select_by active q b ≡ select_multiple q b
unfolding select_by
select_by-several active p r ps q b e = rw e refl

-- If several priorities are active and the first waiter of the highest one needs more than the n
-- permits, then selecting changes nothing and serves nobody, at any priority. This does not depend
-- on the state of that waiter: it holds too if it was cancelled.
pub select_blocked :
    (q : WaitQueue) (m : Store) (n : ℕ) (p r : ℤ) (ps : List ℤ) (i : ℕ) (is : List ℕ)
    → q.active_priorities ≡ p ∷ r ∷ ps
    → get p q.priority_queues ≡ some (i ∷ is)
    → n < (m.cell i).permits_needed
    → select_waiters_to_notify q m n
      ≡ record { queue = q; store = m; wake_list = Waker.new; assigned = 0 }
unfolding select_waiters_to_notify
select_blocked q m n p r ps i is e f few =
    let by =
      select_by-several q.active_priorities p r ps q (start q m n) e
      ∙ multiple_blocked q m n p (r ∷ ps) i is e f few in
    elim (Bool-cases (n == 0 || q.total_waiters == 0)) [ inl g ↦ rw g refl | inr g ↦ rw g by ]
