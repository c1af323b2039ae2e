-- ===== src/System/Serial/Queueing.antt =====
-- futures.rs: the first poll of a future that returns pending, as the two steps that it consists of.
use ranked_semaphore.Common.{ℕ, ◌+◌, ◌<◌, ◌≡◌, refl, ap, sym, ◌∙◌, false, none, leb, arith}
use ranked_semaphore.Common.Word.{usize_mod, u32_mod, shl_one}
use ranked_semaphore.Waiter
use ranked_semaphore.Waiter.{new_handle, set_waker}
use ranked_semaphore.WaitQueue.{push_waiter}
use ranked_semaphore.WaitQueue.Settling.{OneEach}
use ranked_semaphore.Semaphore.{World, is_closed, available_permits}
use ranked_semaphore.Semaphore.Batches.{IsSound}
use ranked_semaphore.Acquire.{Acquire, Polled, poll, poll_first, pending, quiet}
use ranked_semaphore.Acquire.Outcomes.{
  FirstPoll, fails, takes, queues, poll-FirstPoll, open_test, queued, queue_up-eq,
}
use ranked_semaphore.System.{enter, leave_waker}

-- It found the semaphore open and too few permits.
lacking :
    (f : Acquire) (task : ℕ) (w : World) (q : Polled)
    → q.poll ≡ pending
    → FirstPoll f task w q
    → (is_closed w.permits ≡ false) × (available_permits w.permits < f.permits_needed)
lacking f task w q e (fails c) = cc
lacking f task w q e (takes v s o o' sum same queue) = cc
lacking f task w q e (queues i v a b c d g h k l m) = (c, d)

entered_world :
    (f : Acquire) (task : ℕ) (w : World)
    → f.permits_needed < u32_mod
    → IsSound w
    → is_closed w.permits ≡ false
    → available_permits w.permits < f.permits_needed
    → (poll_first f task quiet w).world
      ≡ leave_waker w.store.next task (enter f.permits_needed f.priority w)
unfolding poll_first queued push_waiter new_handle available_permits
entered_world f task w small s opened few =
    let lacks : leb (shl_one f.permits_needed) w.permits ≡ false = ground arith in
    rw (open_test w opened, lacks, queue_up-eq f task w small s opened) refl

pub pending_facts :
    (f g : Acquire) (task : ℕ) (w v : World)
    → f.waiter_handle ≡ none
    → f.permits_needed < u32_mod
    → IsSound w
    → w.waiters.total_waiters + 1 < usize_mod
    → poll f task quiet w ≡ record { future = g; world = v; poll = pending }
    → (is_closed w.permits ≡ false)
      × (available_permits w.permits < f.permits_needed)
      × (v ≡ leave_waker w.store.next task (enter f.permits_needed f.priority w))
unfolding poll
pending_facts f g task w v new small s room e =
    let (o, few) =
      lacking f task w _ (ap (λ (q : Polled). q.poll) e)
        (poll-FirstPoll f task w new small s room) in
    let by : poll f task quiet w ≡ poll_first f task quiet w = ground (arith, new) in
    (
      o,
      few,
      sym (ap (λ (q : Polled). q.world) e)
          ∙ ap (λ (q : Polled). q.world) by
          ∙ entered_world f task w small s o few,
    )

-- Who queues up needs one permit, as the others do.
pub enter-OneEach :
    (w : World) (task : ℕ) (n : ℕ) (f : Acquire)
    → n ≡ 1
    → OneEach w.store
    → OneEach (leave_waker w.store.next task (enter n f.priority w)).store
unfolding push_waiter new_handle set_waker Waiter.new
enter-OneEach w task n f e each i exists = ground (arith, each i)
