-- ===== src/WaitQueue/Alone.antt =====
-- queue.rs: the first waiter of a queue that nobody has entered, and a selection that serves it.
use ranked_semaphore.Common.{ℕ, ◌<◌, ◌≡◌, refl, false, some, List, [], ◌∷◌, arith}
use ranked_semaphore.Common.Int.{ℤ, eqb_ℤ_iff}
use ranked_semaphore.Config.{PriorityConfig, QueueStrategy, fifo, lifo, resolve_strategy}
use ranked_semaphore.Waker
use ranked_semaphore.Waker.{take_under_lock, new_cell}
use ranked_semaphore.Waiter
use ranked_semaphore.Waiter.{
  WaiterState, notified, Store, write, is_waiting, is_notified, is_cancelled, try_notify,
  take_waker_under_lock, new_handle, set_waker,
}
use ranked_semaphore.PriorityMap.{get, insert, remove, get_mut_or_create, has_non_empty_queue}
use ranked_semaphore.PriorityHeap
use ranked_semaphore.WaitQueue
use ranked_semaphore.WaitQueue.{WaitQueue, enqueue, insert_waiter_optimized, push_waiter}
use ranked_semaphore.WaitQueue.Select.{
  start, collect, serve, serve_single, select_single, select_by, select_waiters_to_notify,
}

-- A queue that holds one waiter, at the priority `p`.
abbrev pub one_queued : PriorityConfig → ℤ → ℕ → WaitQueue
one_queued config p i = record {
  priority_queues = (p, i ∷ []) ∷ [];
  active_priorities = p ∷ [];
  config = config;
  closed = false;
  total_waiters = 1;
}

enqueue-first : (s : QueueStrategy) (i : ℕ) → enqueue s i [] ≡ i ∷ []
enqueue-first fifo i = refl
enqueue-first lifo i = refl

pub push_waiter-first :
    (config : PriorityConfig) (m : Store) (n : ℕ) (p : ℤ)
    → push_waiter (WaitQueue.new config) m n p
      ≡ (m.next, one_queued config p m.next, (new_handle m n p).1)
unfolding push_waiter insert_waiter_optimized WaitQueue.new new_handle get_mut_or_create
    has_non_empty_queue get insert PriorityHeap.push
push_waiter-first config m n p = rw (enqueue-first (resolve_strategy config p) m.next) refl

-- A fresh waiter once it is notified.
abbrev pub told : ℕ → ℤ → WaiterState
told n p = record (Waiter.new n p) { state = notified }

serve_single-one :
    (i n : ℕ) (p : ℤ) (m : Store)
    → 0 < n
    → m.cell i ≡ Waiter.new n p
    → serve_single (i ∷ []) (record {
      available = n;
      wake_list = Waker.new;
      assigned = 0;
      total_waiters = 1;
      store = m;
    })
      ≡ (
        [],
        record {
          available = 0;
          wake_list = Waker.new;
          assigned = n;
          total_waiters = 0;
          store = write m i (told n p);
        },
      )
unfolding serve_single serve collect try_notify take_waker_under_lock take_under_lock is_cancelled
    Waiter.new new_cell Waker.new Waker.can_push
serve_single-one i n p m pos e = rw e (ground arith)

found : (p : ℤ) (is : List ℕ) → (get p ((p, is) ∷ []) ≡ some is) × (remove p ((p, is) ∷ []) ≡ [])
unfolding get remove
found p is = let e = (eqb_ℤ_iff p p).1 refl in (rw e refl, rw e refl)

select_single-one :
    (config : PriorityConfig) (i n : ℕ) (p : ℤ) (m : Store)
    → 0 < n
    → m.cell i ≡ Waiter.new n p
    → select_single (one_queued config p i) p (start (one_queued config p i) m n) ≡ record {
      queue = WaitQueue.new config;
      store = write m i (told n p);
      wake_list = Waker.new;
      assigned = n;
    }
unfolding WaitQueue.new select_single Waiter.new Waker.new
select_single-one config i n p m pos e =
    rw ((found p (i ∷ [])).0, select_single, serve_single-one i n p m pos e, (found p (i ∷ [])).1)
      refl

pub select-one :
    (config : PriorityConfig) (i n : ℕ) (p : ℤ) (m : Store)
    → 0 < n
    → m.cell i ≡ Waiter.new n p
    → select_waiters_to_notify (one_queued config p i) m n ≡ record {
      queue = WaitQueue.new config;
      store = write m i (told n p);
      wake_list = Waker.new;
      assigned = n;
    }
unfolding select_waiters_to_notify select_by
select-one config i n p m pos e = rw (select_single-one config i n p m pos e) (ground arith)
