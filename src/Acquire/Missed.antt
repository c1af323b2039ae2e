-- ===== src/Acquire/Missed.antt =====
-- futures.rs: a first poll that another thread overtakes between the check of its waiter and the
-- call of `set_waker`.
use ranked_semaphore.Common.{ℕ, ◌+◌, ◌<◌, ◌≡◌, refl, ◌∙◌, true, false, some, none, arith}
use ranked_semaphore.Common.Int.{ℤ}
use ranked_semaphore.Common.Word.{u32_mod}
use ranked_semaphore.Config.{PriorityConfig}
use ranked_semaphore.Waker
use ranked_semaphore.Waker.{take_under_lock, new_cell}
use ranked_semaphore.Waiter
use ranked_semaphore.Waiter.{
  WaiterState, notified, Store, write, is_waiting, is_notified, is_cancelled, try_notify,
  take_waker_under_lock, new_handle, set_waker,
}
use ranked_semaphore.Waiter.Reserved.{reserved, share, reserved-write, reserved-new_handle}
use ranked_semaphore.WaitQueue
use ranked_semaphore.WaitQueue.{WaitQueue, enqueue, insert_waiter_optimized, push_waiter}
use ranked_semaphore.Semaphore.{World, is_closed, available_permits}
use ranked_semaphore.Permit
use ranked_semaphore.Semaphore.Release.{
  leaves, add_permits_locked, release_loop, finish_release, add_remaining,
}
use ranked_semaphore.Acquire.{
  Acquire, pending, quiet, Rivals, Polled, wait, queue_up, poll_first, poll,
}
use ranked_semaphore.Acquire.Races.{dropped_meanwhile, not_enough, poll-first}
use ranked_semaphore.Acquire.Outcomes.{open_test}
use ranked_semaphore.WaitQueue.Alone.{one_queued, told, push_waiter-first, select-one}

-- A semaphore whose queue holds one fresh waiter.
abbrev waiting_world : World → PriorityConfig → ℤ → ℕ → Store → World
waiting_world w config p i m = record {
  sem = record { permits = w.permits; waiters = one_queued config p i };
  store = m;
  woken = w.woken;
}

abbrev served_world : World → PriorityConfig → ℕ → ℕ → ℤ → Store → World
served_world w config i n p m = record {
  sem = record { permits = w.permits; waiters = WaitQueue.new config };
  store = write m i (told n p);
  woken = w.woken;
}

module _ (w : World) (config : PriorityConfig) (i n : ℕ) (p : ℤ) (m : Store) (pos : 0 < n)
    (e : m.cell i ≡ Waiter.new n p) where
  release-one :
      release_loop 1 n (waiting_world w config p i m)
      ≡ some (leaves 0 (served_world w config i n p m))
  unfolding release_loop WaitQueue.is_empty Waker.is_empty Waker.new
  release-one = rw (select-one config i n p m pos e) (ground arith)

  dropped-one : dropped_meanwhile n (waiting_world w config p i m) ≡ served_world w config i n p m
  unfolding Permit.drop add_permits_locked finish_release add_remaining WaitQueue.is_empty
  dropped-one = ground (arith, release-one)

-- Another thread drops a permit object of `k` permits after the poll has found its waiter waiting.
abbrev pub released_meanwhile : ℕ → Rivals
released_meanwhile k = record quiet { before_waker = dropped_meanwhile k }

-- A poll that leaves its task waiting although its waiter was notified and taken off the queue, with
-- the permits set aside for it, and nobody was woken.
pub record Missed (f : Acquire) (w : World) (r : Polled) : Type 0 where
  pub pends : r.poll ≡ pending
  pub queued : r.future ≡ record f { waiter_handle = some w.store.next }
  pub told : is_notified (r.world.store.cell w.store.next) ≡ true
  pub unlisted : r.world.waiters.total_waiters ≡ 0
  pub silent : r.world.woken ≡ w.woken
  pub kept : r.world.permits ≡ w.permits
  pub set_aside : reserved r.world.store ≡ reserved w.store + f.permits_needed

module _ (f : Acquire) (task : ℕ) (w : World) (config : PriorityConfig) where
  abbrev i : ℕ
  i = w.store.next

  abbrev m : Store
  m = (new_handle w.store f.permits_needed f.priority).1

  fresh-cell : m.cell i ≡ Waiter.new f.permits_needed f.priority
  unfolding new_handle
  fresh-cell = ground arith

  abbrev left : World
  left =
      let v = served_world w config i f.permits_needed f.priority m in
      record v { store = write v.store i (set_waker (v.store.cell i) task) }

  missed_wait :
      0 < f.permits_needed
      → wait
          (record f { waiter_handle = some i })
          i
          task
          (released_meanwhile f.permits_needed)
          (waiting_world w config f.priority i m)
        ≡ record { future = record f { waiter_handle = some i }; world = left; poll = pending }
  unfolding wait is_cancelled is_notified Waiter.new
  missed_wait pos =
      rw (dropped-one w config i f.permits_needed f.priority m pos fresh-cell, fresh-cell) refl

  missed_poll :
      f.waiter_handle ≡ none
      → 0 < f.permits_needed
      → f.permits_needed < u32_mod
      → is_closed w.permits ≡ false
      → available_permits w.permits < f.permits_needed
      → w.waiters ≡ WaitQueue.new config
      → poll f task (released_meanwhile f.permits_needed) w
        ≡ record { future = record f { waiter_handle = some i }; world = left; poll = pending }
  unfolding poll_first queue_up
  missed_poll new pos small o few fresh =
      poll-first f task (released_meanwhile f.permits_needed) w new
      ∙ (rw
          (
            open_test w o,
            not_enough f.permits_needed w.permits small few,
            fresh,
            push_waiter-first config w.store f.permits_needed f.priority,
          )
          (missed_wait pos))

  left-notified :
      (is_notified (left.store.cell i) ≡ true) × (share (left.store.cell i) ≡ f.permits_needed)
  unfolding is_notified share set_waker Waiter.new
  left-notified = ground arith

  left-reserved : reserved left.store ≡ reserved w.store + f.permits_needed
  unfolding share is_notified set_waker Waiter.new new_handle
  left-reserved =
      let given = write m i (told f.permits_needed f.priority) in
      let exists : i < w.store.next + 1 = omega arith in
      ground (
        arith,
        fresh-cell,
        left-notified,
        reserved-write given i (set_waker (given.cell i) task) exists,
        reserved-write m i (told f.permits_needed f.priority) exists,
        reserved-new_handle w.store f.permits_needed f.priority,
      )

-- A future of at least one permit that was not polled before needs more permits than an open
-- semaphore has whose queue nobody has entered, and after the poll has queued it and found its
-- waiter waiting, but before it sets the waker, another thread drops a permit object of just the
-- permits that it needs. Then the poll returns pending with its waiter notified and taken off the
-- queue, these permits are set aside for it, the word is as it was, and nobody is woken.
pub poll-Missed :
    (f : Acquire) (task : ℕ) (w : World) (config : PriorityConfig)
    → f.waiter_handle ≡ none
    → 0 < f.permits_needed
    → f.permits_needed < u32_mod
    → is_closed w.permits ≡ false
    → available_permits w.permits < f.permits_needed
    → w.waiters ≡ WaitQueue.new config
    → Missed f w (poll f task (released_meanwhile f.permits_needed) w)
unfolding WaitQueue.new
poll-Missed f task w config new pos small o few fresh =
    rw (missed_poll f task w config new pos small o few fresh) (record {
      pends = refl;
      queued = refl;
      told = (left-notified f task w config).0;
      unlisted = refl;
      silent = refl;
      kept = refl;
      set_aside = left-reserved f task w config;
    })
