-- ===== src/Samples.antt =====
-- Small semaphores that the examples of the other modules run on.
use ranked_semaphore.Common.{ℕ, ◌+◌, ◌<◌, ◌≡◌, false, [], arith, refl, ◌∷◌, some}
use ranked_semaphore.Common.Int.{eqb_ℤ, eqb_ℤ_iff, ℤ, pos}
use ranked_semaphore.Common.Word.{usize_mod}
use ranked_semaphore.Config
use ranked_semaphore.Config.{fifo, new}
use ranked_semaphore.Waiter
use ranked_semaphore.Waiter.{waiting, Store, write, set_waker, new_handle, is_notified}
use ranked_semaphore.PriorityMap.{get, drain_all_waiters, has_non_empty_queue}
use ranked_semaphore.PriorityMap.Laws.{total}
use ranked_semaphore.PriorityHeap.Laws.{contains}
use ranked_semaphore.WaitQueue.Ready.{member}
use ranked_semaphore.WaitQueue
use ranked_semaphore.WaitQueue.{WaitQueue, push_waiter, insert_waiter_optimized}
use ranked_semaphore.WaitQueue.Invariant.{new-IsValid, push_waiter-IsValid}
use ranked_semaphore.WaitQueue.Upkeep.{push_waiter-AllReady}
use ranked_semaphore.Semaphore.{World}
use ranked_semaphore.Semaphore.Batches.{IsSound}
use ranked_semaphore.Acquire.Dropping.{write-IsSound}

-- One permit, and nobody waits.
abbrev pub idle : World
idle = record {
  sem = record { permits = 2; waiters = WaitQueue.new (Config.default_strategy Config.new fifo) };
  store = record { next = 0; cell = λ i. Waiter.new 0 (pos 0) };
  woken = [];
}

pub idle-IsSound : IsSound idle
unfolding WaitQueue.new get
idle-IsSound = record { valid = new-IsValid _; ready = λ p is e. cc; word = omega arith }

-- The task enters the queue with a demand and a priority, and leaves its waker.
abbrev pub enter : ℕ → ℕ → ℤ → World → World
enter task n p w =
    let (i, q, m) = push_waiter w.waiters w.store n p in
    record {
      sem = record { permits = w.permits; waiters = q };
      store = write m i (set_waker (m.cell i) task);
      woken = w.woken;
    }

pub enter-IsSound :
    (task n : ℕ) (p : ℤ) (w : World)
    → IsSound w
    → w.waiters.total_waiters + 1 < usize_mod
    → IsSound (enter task n p w)
unfolding push_waiter new_handle Waiter.new is_notified set_waker
enter-IsSound task n p w s room = write-IsSound pushed i x w.woken facts.0 facts.1 (record {
  valid = push_waiter-IsValid w.waiters w.store n p s.valid room;
  ready = push_waiter-AllReady w.waiters w.store n p s.ready;
  word = s.word;
})
  where
    i : ℕ
    i = (push_waiter w.waiters w.store n p).0

    pushed : World
    pushed = record {
      sem = record { permits = w.permits; waiters = (push_waiter w.waiters w.store n p).1 };
      store = (push_waiter w.waiters w.store n p).2;
      woken = w.woken;
    }

    x : Waiter.WaiterState
    x = set_waker (pushed.store.cell i) task

    facts : (x.priority ≡ (pushed.store.cell i).priority) × (is_notified x ≡ false)
    facts = ground arith

-- A task that needs two permits at priority 5, and one that needs one at priority 0.
abbrev pub busy : World
busy = enter 8 1 (pos 0) (enter 7 2 (pos 5) idle)

pub one_waiter-IsSound : IsSound (enter 7 2 (pos 5) idle)
unfolding WaitQueue.new
one_waiter-IsSound = enter-IsSound 7 2 (pos 5) idle idle-IsSound (omega arith)

pub busy-IsSound : IsSound busy
unfolding push_waiter insert_waiter_optimized WaitQueue.new
busy-IsSound = enter-IsSound 8 1 (pos 0) (enter 7 2 (pos 5) idle) one_waiter-IsSound (omega arith)

-- A semaphore that is being closed, without permits, and a task that waits for two of them.
abbrev pub closing : World
closing = record {
  sem = record {
    permits = 1;
    waiters = record {
      priority_queues = (pos 5, 0 ∷ []) ∷ [];
      active_priorities = pos 5 ∷ [];
      config = new;
      closed = false;
      total_waiters = 1;
    };
  };
  store = record {
    next = 1;
    cell = λ i. record {
      state = waiting;
      permits_needed = 2;
      waker = record { waker = some 7 };
      priority = pos 5;
    };
  };
  woken = [];
}

pub closing-IsSound : IsSound closing
unfolding total drain_all_waiters has_non_empty_queue get contains eqb_ℤ is_notified member
closing-IsSound = record {
  valid = record {
    counted = refl;
    small = omega arith;
    unique = (refl, tt);
    descending = (tt, tt);
    covered = λ p h. ground arith;
  };
  ready = λ p is e. ground (arith, eqb_ℤ_iff (pos 5) p);
  word = omega arith;
}
