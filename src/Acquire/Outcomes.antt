-- ===== src/Acquire/Outcomes.antt =====
-- futures.rs: what the first poll of a future does if nobody overtakes it.
use ranked_semaphore.Common.{
  ℕ, ◌+◌, ◌-◌, ◌%◌, ◌<◌, ◌≡◌, refl, true, false, not, some, none, leb, ◌==◌, arith, Bool-cases, inl,
  inr,
}
use ranked_semaphore.Common.Word.{usize_mod, u32_mod, shl_one, and_one}
use ranked_semaphore.Error.{closed_acquire}
use ranked_semaphore.Waker.{set_under_lock}
use ranked_semaphore.Waiter
use ranked_semaphore.Waiter.{
  WaiterState, waiting, notified, cancelled, Store, write, is_cancelled, is_notified, is_waiting,
  set_waker, new_handle,
}
use ranked_semaphore.Waiter.Reserved.{share, reserved, reserved-write, reserved-new_handle}
use ranked_semaphore.WaitQueue.{WaitQueue, push_waiter, insert_waiter_optimized}
use ranked_semaphore.WaitQueue.Invariant.{push_waiter-IsValid}
use ranked_semaphore.WaitQueue.Upkeep.{push_waiter-AllReady}
use ranked_semaphore.Semaphore.{World, set_word, available_permits, is_closed}
use ranked_semaphore.Semaphore.Batches.{IsSound}
use ranked_semaphore.Acquire
use ranked_semaphore.Acquire.Dropping.{write-IsSound}
use ranked_semaphore.Acquire.{
  Acquire, Poll, ready, failed, pending, quiet, Polled, wait, queue_up, poll_first, poll, drop,
}

-- What the first poll of a future leaves, if nobody overtakes it.
pub data FirstPoll (f : Acquire) (task : ℕ) (w : World) : Polled → Type 0 where
  fails :
      is_closed w.permits ≡ true
      → FirstPoll f task w (record { future = f; world = w; poll = failed closed_acquire })
  takes :
      (v : World)
      → IsSound v
      → is_closed w.permits ≡ false
      → is_closed v.permits ≡ false
      → available_permits v.permits + f.permits_needed ≡ available_permits w.permits
      → v.store ≡ w.store
      → v.waiters ≡ w.waiters
      → FirstPoll f task w (record {
        future = f;
        world = v;
        poll = ready (record { sem = f.semaphore; permits = f.permits_needed });
      })
  queues :
      (i : ℕ) (v : World)
      → i ≡ w.store.next
      → IsSound v
      → is_closed w.permits ≡ false
      → available_permits w.permits < f.permits_needed
      → v.permits ≡ w.permits
      → reserved v.store ≡ reserved w.store
      → v.waiters.total_waiters ≡ w.waiters.total_waiters + 1
      → is_waiting (v.store.cell i) ≡ true
      → (v.store.cell i).waker.waker ≡ some task
      → FirstPoll f task w
          (record { future = record f { waiter_handle = some i }; world = v; poll = pending })

closed_test : (w : World) → is_closed w.permits ≡ true → not (and_one w.permits == 0) ≡ true
unfolding is_closed
closed_test w e = ground arith

pub open_test : (w : World) → is_closed w.permits ≡ false → not (and_one w.permits == 0) ≡ false
unfolding is_closed
open_test w e = ground arith

module _ (f : Acquire) (task : ℕ) (w : World) (small : f.permits_needed < u32_mod) (s : IsSound w)
    (opened : is_closed w.permits ≡ false) where
  taken : World
  taken = set_word w (w.permits - shl_one f.permits_needed)

  word_after :
      leb (shl_one f.permits_needed) w.permits ≡ true
      → (is_closed taken.permits ≡ false)
        × (available_permits taken.permits + f.permits_needed ≡ available_permits w.permits)
        × (taken.permits < usize_mod)
  unfolding taken is_closed available_permits
  word_after e = ground (arith, opened, s.word)

  takes-FirstPoll :
      leb (shl_one f.permits_needed) w.permits ≡ true
      → FirstPoll f task w (record { future = f; world = taken; poll = Acquire.granted f })
  unfolding taken
  takes-FirstPoll e =
      let (flag, less, fits) = word_after e in
      let same : f.permits_needed % u32_mod ≡ f.permits_needed = omega arith in
      rw same (
        takes taken (record { valid = s.valid; ready = s.ready; word = fits }) opened flag less refl
          refl)

  abbrev pub pushed : ℕ × WaitQueue × Store
  pushed = push_waiter w.waiters w.store f.permits_needed f.priority

  fresh_waiter : is_cancelled (pushed.2.cell pushed.0) ≡ false
  unfolding push_waiter new_handle Waiter.new is_cancelled
  fresh_waiter = ground arith

  unfoldable pub queued : World
  queued = record {
    sem = record { permits = w.permits; waiters = pushed.1 };
    store = pushed.2;
    woken = w.woken;
  }

  pub fresh_facts :
      let x = pushed.2.cell pushed.0 in
      (pushed.0 ≡ w.store.next)
      × (w.store.next < pushed.2.next)
      × (is_notified x ≡ false)
      × (is_waiting x ≡ true)
      × (is_notified (set_waker x task) ≡ false)
      × (is_waiting (set_waker x task) ≡ true)
      × ((set_waker x task).priority ≡ x.priority)
      × (share x ≡ 0)
      × (share (set_waker x task) ≡ 0)
      × ((set_waker x task).waker.waker ≡ some task)
  unfolding push_waiter new_handle Waiter.new is_notified is_waiting set_waker share set_under_lock
  fresh_facts = ground arith

  queued-IsSound : w.waiters.total_waiters + 1 < usize_mod → IsSound queued
  unfolding queued
  queued-IsSound room = record {
    valid = push_waiter-IsValid w.waiters w.store f.permits_needed f.priority s.valid room;
    ready = push_waiter-AllReady w.waiters w.store f.permits_needed f.priority s.ready;
    word = s.word;
  }

  queued_reserved : reserved queued.store ≡ reserved w.store
  unfolding queued push_waiter
  queued_reserved = reserved-new_handle w.store f.permits_needed f.priority

  pub queued_count :
      w.waiters.total_waiters + 1 < usize_mod → pushed.1.total_waiters ≡ w.waiters.total_waiters + 1
  unfolding push_waiter insert_waiter_optimized
  queued_count room = omega arith

  pub queue_up-eq : queue_up f task quiet w ≡ record {
    future = record f { waiter_handle = some pushed.0 };
    world = record queued {
      store = write pushed.2 pushed.0 (set_waker (pushed.2.cell pushed.0) task);
    };
    poll = pending;
  }
  unfolding queue_up wait queued
  queue_up-eq = rw (open_test w opened, fresh_waiter, fresh_facts.2)

  queues-FirstPoll :
      w.waiters.total_waiters + 1 < usize_mod
      → available_permits w.permits < f.permits_needed
      → FirstPoll f task w (queue_up f task quiet w)
  unfolding queued
  queues-FirstPoll room few =
      let x = set_waker (pushed.2.cell pushed.0) task in
      let facts = fresh_facts in
      let sound = write-IsSound queued pushed.0 x w.woken facts.6 facts.4 (queued-IsSound room) in
      let same : reserved (write pushed.2 pushed.0 x) ≡ reserved w.store = omega (
        arith,
        queued_reserved,
        reserved-write pushed.2 pushed.0 x (rw facts.0 facts.1),
        facts.7,
        facts.8,
      ) in
      rw queue_up-eq (
        queues pushed.0 _ facts.0 sound opened few refl same (queued_count room)
          (ground (arith, facts.5)) (ground (arith, facts.9)))

shifted : (n word : ℕ) → n < u32_mod → leb (shl_one n) word ≡ false → available_permits word < n
unfolding available_permits
shifted n word small e = ground arith

first-FirstPoll :
    (f : Acquire) (task : ℕ) (w : World)
    → f.permits_needed < u32_mod
    → IsSound w
    → w.waiters.total_waiters + 1 < usize_mod
    → FirstPoll f task w (poll_first f task quiet w)
unfolding poll_first taken
first-FirstPoll f task w small s room = elim (Bool-cases (is_closed w.permits)) [
  | inl c ↦ rw (closed_test w c) (fails c)
  | inr c ↦ elim (Bool-cases (leb (shl_one f.permits_needed) w.permits)) [
    | inl e ↦ rw (open_test w c, e) (takes-FirstPoll f task w small s c e)
    | inr e ↦
        rw (open_test w c, e)
          (queues-FirstPoll f task w small s c room (shifted f.permits_needed w.permits small e))
  ]
]

poll-new :
    (f : Acquire) (task : ℕ) (w : World)
    → f.waiter_handle ≡ none
    → poll f task quiet w ≡ poll_first f task quiet w
unfolding poll
poll-new f task w new = ground arith

pub poll-FirstPoll :
    (f : Acquire) (task : ℕ) (w : World)
    → f.waiter_handle ≡ none
    → f.permits_needed < u32_mod
    → IsSound w
    → w.waiters.total_waiters + 1 < usize_mod
    → FirstPoll f task w (poll f task quiet w)
poll-FirstPoll f task w new small s room =
    rw (poll-new f task w new) (first-FirstPoll f task w small s room)
