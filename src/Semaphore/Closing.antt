-- ===== src/Semaphore/Closing.antt =====
-- core.rs, `close`: what becomes of the waiters.
use ranked_semaphore.Common.{
  ℕ, suc, ◌<◌, ◌≡◌, refl, true, false, ◌||◌, some, List, [], ◌∷◌, ◌==◌, arith, if◌then◌else◌,
}
use ranked_semaphore.Common.Int.{ℤ, eqb_ℤ_iff}
use ranked_semaphore.Common.Word.{add_usize, shl_one}
use ranked_semaphore.Waker
use ranked_semaphore.Waiter
use ranked_semaphore.Waiter.{
  WaiterState, Store, write, waiting, notified, cancelled, is_cancelled, is_waiting, is_notified,
}
use ranked_semaphore.PriorityMap.{PriorityQueues, get, drain_all_waiters}
use ranked_semaphore.PriorityMap.Laws.{IsUnique}
use ranked_semaphore.WaitQueue
use ranked_semaphore.WaitQueue.{WaitQueue, cancel_all}
use ranked_semaphore.WaitQueue.Invariant.{close-IsValid}
use ranked_semaphore.WaitQueue.Ready.{member-append, member, Ready, AllReady}
use ranked_semaphore.WaitQueue.SelectInvariant.{select-IsValid}
use ranked_semaphore.WaitQueue.Accounting.{select-Accounted}
use ranked_semaphore.WaitQueue.Select.{select_waiters_to_notify}
use ranked_semaphore.Error.{returns}
use ranked_semaphore.Semaphore.{
  World, fetch_add, available_permits, is_closed, close, close_word, close_queue,
}
use ranked_semaphore.Semaphore.Batches.{IsSound}
use ranked_semaphore.Semaphore.Release.{
  returns_early, release_loop, finish_release, add_permits_locked, add_permits,
}

cancel_twice : (x : WaiterState) → (Waiter.cancel (Waiter.cancel x).0).0 ≡ (Waiter.cancel x).0
unfolding Waiter.cancel
cancel_twice x = ground arith

pub cancel_all-cell :
    (is : List ℕ) (m : Store) (i : ℕ)
    → (cancel_all is m).0.cell i ≡ (if member i is then (Waiter.cancel (m.cell i)).0 else m.cell i)
unfolding cancel_all member
cancel_all-cell [] m i = refl
cancel_all-cell (j ∷ is) m i =
    ground (
      arith,
      cancel_all-cell is (write m j (Waiter.cancel (m.cell j)).0) i,
      cancel_twice (m.cell i),
    )

cancel-is_cancelled : (x : WaiterState) → is_cancelled (Waiter.cancel x).0 ≡ true
unfolding Waiter.cancel is_cancelled
cancel-is_cancelled x = ground arith

-- What `close` leaves.
pub record Closed (w v : World) : Type 0 where
  pub sound : IsSound v
  pub closed_flag : is_closed v.permits ≡ true
  pub kept : available_permits v.permits ≡ available_permits w.permits
  pub nobody : v.waiters.total_waiters ≡ 0
  pub reached :
      (i : ℕ)
      → is_cancelled (v.store.cell i)
        ≡ (member i (drain_all_waiters w.waiters.priority_queues) || is_cancelled (w.store.cell i))
  pub others :
      (i : ℕ)
      → v.store.cell i ≡ (
          if member i (drain_all_waiters w.waiters.priority_queues)
          then (Waiter.cancel (w.store.cell i)).0
          else w.store.cell i)

-- On a semaphore between two calls `close` sets the flag, keeps the number of permits, empties the
-- queue and leaves it well formed, and cancels the waiters that were in the queue and no other: who
-- is cancelled afterwards was in the queue or was cancelled before, and the rest is untouched.
pub close-Closed : (w : World) → IsSound w → Closed w (close w)
unfolding close close_queue close_word WaitQueue.close is_closed available_permits get
close-Closed w s = record {
  sound = record {
    valid = close-IsValid w.waiters w.store;
    ready = λ p is e. cc;
    word = omega (arith, s.word);
  };
  closed_flag = ground arith;
  kept = omega arith;
  nobody = refl;
  reached = λ i. ground (arith, all_cells i, cancel-is_cancelled (w.store.cell i));
  others = all_cells;
}
  where
    waiters : List ℕ
    waiters = drain_all_waiters w.waiters.priority_queues

    all_cells :
        (i : ℕ)
        → (cancel_all waiters w.store).0.cell i
          ≡ (if member i waiters then (Waiter.cancel (w.store.cell i)).0 else w.store.cell i)
    all_cells i = cancel_all-cell waiters w.store i

early_return :
    (fuel n : ℕ) (w : World)
    → is_closed w.permits ≡ true
    → WaitQueue.is_empty w.waiters ≡ false
    → let s = select_waiters_to_notify w.waiters w.store n in
      (s.assigned == 0 || Waker.is_empty s.wake_list) ≡ false
      → 0 < n
      → release_loop (suc fuel) n w
        ≡ some (
            returns_early (
              fetch_add
                (record {
                  sem = record { permits = w.permits; waiters = s.queue };
                  store = s.store;
                  woken = w.woken;
                })
                s.assigned))
unfolding release_loop
early_return fuel n w c e f pos = ground arith

-- A waiter that is notified is in no queue.
Ready-not_notified :
    (p : ℤ) (m : Store) (is : List ℕ) (i : ℕ)
    → is_notified (m.cell i) ≡ true
    → Ready p m is
    → member i is ≡ false
unfolding member
Ready-not_notified p m [] i e r = refl
Ready-not_notified p m (j ∷ is) i e r = ground (arith, Ready-not_notified p m is i e r.4)

drained-not_notified :
    (queues : PriorityQueues) (m : Store) (i : ℕ)
    → is_notified (m.cell i) ≡ true
    → IsUnique queues
    → AllReady queues m
    → member i (drain_all_waiters queues) ≡ false
unfolding drain_all_waiters member get
drained-not_notified [] m i e u all = refl
drained-not_notified ((k, q) ∷ queues) m i e u all = ground (
  arith,
  member-append i q (drain_all_waiters queues),
  Ready-not_notified k m q i e (all k q (ground (arith, eqb_ℤ_iff k k))),
  drained-not_notified queues m i e u.1 (λ p is f. all p is (ground (arith, eqb_ℤ_iff k p))),
)

close_queue-cell :
    (w : World) (i : ℕ)
    → is_notified (w.store.cell i) ≡ true
    → IsSound w
    → (close_queue w).store.cell i ≡ w.store.cell i
unfolding close_queue WaitQueue.close
close_queue-cell w i e s = ground (
  arith,
  cancel_all-cell (drain_all_waiters w.waiters.priority_queues) w.store i,
  drained-not_notified w.waiters.priority_queues w.store i e s.valid.unique s.ready,
)

-- The world that `add_permits(n)` leaves by its early return.
abbrev pub left_early : ℕ → World → World
left_early n w =
    let s = select_waiters_to_notify w.waiters w.store n in
    record {
      sem = record { permits = add_usize w.permits (shl_one s.assigned); waiters = s.queue };
      store = s.store;
      woken = w.woken;
    }

-- Between the two steps of `close`, when the flag is set and the queue is not emptied yet,
-- `add_permits(n)` for n above 0 that assigns permits and finds a waker notifies waiters and takes
-- them off the queue, and then returns early: it wakes nobody, and every waiter that is notified
-- then is passed over by the rest of `close`, which leaves it notified instead of cancelling it.
-- Of the n permits only those assigned go back to the word.
pub add_permits_while_closing :
    (fuel n i : ℕ) (w : World)
    → IsSound w
    → is_closed w.permits ≡ true
    → WaitQueue.is_empty w.waiters ≡ false
    → let s = select_waiters_to_notify w.waiters w.store n in
      (s.assigned == 0 || Waker.is_empty s.wake_list) ≡ false
      → 0 < n
      → is_notified (s.store.cell i) ≡ true
      → (add_permits (suc fuel) n w ≡ some (left_early n w, returns tt))
        × ((close_queue (left_early n w)).store.cell i ≡ s.store.cell i)
unfolding add_permits add_permits_locked finish_release
add_permits_while_closing fuel n i w t c e f pos g =
    let a = select-Accounted w.waiters w.store n t.valid t.ready in
    let left : IsSound (left_early n w) = record {
      valid = select-IsValid w.waiters w.store n t.valid;
      ready = a.ready;
      word = omega arith;
    } in
    (ground (arith, early_return fuel n w c e f pos), close_queue-cell (left_early n w) i g left)
