-- ===== src/WaitQueue/Cancelling.antt =====
-- queue.rs: a waiter that is cancelled without the lock while a selection serves it, between the
-- check of its cancellation and `try_notify`.
use ranked_semaphore.Common.{ℕ, ◌≡◌, true, arith}
use ranked_semaphore.Waiter.{write, is_waiting, cancel, try_notify, take_waker_under_lock}
use ranked_semaphore.WaitQueue.Select.{Batch, serve}

-- The waiter `i` of a batch is cancelled.
abbrev pub cancel_in : ℕ → Batch → Batch
cancel_in i b = record b { store = write b.store i (cancel (b.store.cell i)).0 }

-- If a waiting waiter is cancelled just before `serve` notifies it, the permits of the batch, the
-- count of its waiters, and the state, the demand and the priority of that waiter are the same as if
-- it is cancelled behind it: the permits count as assigned either way.
pub serve-cancel_in :
    (i : ℕ) (b : Batch)
    → is_waiting (b.store.cell i) ≡ true
    → let early = serve i (cancel_in i b) in
      let late = cancel_in i (serve i b) in
      (early.available ≡ late.available)
      × (early.assigned ≡ late.assigned)
      × (early.total_waiters ≡ late.total_waiters)
      × ((early.store.cell i).state ≡ (late.store.cell i).state)
      × ((early.store.cell i).permits_needed ≡ (late.store.cell i).permits_needed)
      × ((early.store.cell i).priority ≡ (late.store.cell i).priority)
unfolding serve cancel try_notify take_waker_under_lock is_waiting
serve-cancel_in i b e = ground arith
