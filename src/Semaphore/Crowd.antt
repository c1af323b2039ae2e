-- ===== src/Semaphore/Crowd.antt =====
-- Examples for core.rs: more tasks than one batch of wakers holds.
use ranked_semaphore.Common.{
  ℕ, zero, suc, ◌+◌, ◌≤◌, ◌<◌, ◌≡◌, refl, false, List, [], ◌∷◌, some, arith,
}
use ranked_semaphore.Common.Int.{pos, eqb_ℤ, eqb_ℤ_iff}
use ranked_semaphore.Config
use ranked_semaphore.Waiter.{Store, waiting, is_waiting, is_notified}
use ranked_semaphore.PriorityMap.{get, get_mut_or_create, drain_all_waiters, has_non_empty_queue}
use ranked_semaphore.PriorityMap.Laws.{total}
use ranked_semaphore.PriorityHeap.Laws.{contains}
use ranked_semaphore.WaitQueue.Ready.{member, Ready}
use ranked_semaphore.WaitQueue.ServiceOrder.{service_order}
use ranked_semaphore.Semaphore.{World, is_closed, available_permits}
use ranked_semaphore.Semaphore.Batches.{IsSound}
use ranked_semaphore.Semaphore.Release.{add_permits}
use ranked_semaphore.Semaphore.Leftover.{Leftover, add_permits-Leftover}

-- The k numbers from i on.
abbrev numbers : ℕ → ℕ → List ℕ
numbers zero i = []
numbers (suc k) i = i ∷ numbers k (i + 1)

abbrev crowd_tasks : Store
crowd_tasks = record {
  next = 33;
  cell = λ i. record {
    state = waiting;
    permits_needed = 1;
    waker = record { waker = some i };
    priority = pos 0;
  };
}

abbrev crowd : World
crowd = record {
  sem = record {
    permits = 0;
    waiters = record {
      priority_queues = (pos 0, numbers 33 0) ∷ [];
      active_priorities = pos 0 ∷ [];
      config = Config.new;
      closed = false;
      total_waiters = 33;
    };
  };
  store = crowd_tasks;
  woken = [];
}

numbers_above : (k i j : ℕ) → i < j → member i (numbers k j) ≡ false
unfolding member
numbers_above zero i j lt = refl
numbers_above (suc k) i j lt = ground (arith, numbers_above k i (j + 1))

numbers-Ready : (k i : ℕ) → i + k ≤ 33 → Ready (pos 0) crowd_tasks (numbers k i)
unfolding is_notified
numbers-Ready zero i le = tt
numbers-Ready (suc k) i le = ground (arith, numbers_above k i (i + 1), numbers-Ready k (i + 1))

crowd-IsSound : IsSound crowd
unfolding total drain_all_waiters has_non_empty_queue get contains eqb_ℤ
crowd-IsSound = record {
  valid = record {
    counted = refl;
    small = omega arith;
    unique = (refl, tt);
    descending = (tt, tt);
    covered = λ p h. ground arith;
  };
  ready = λ p is e. ground (arith, eqb_ℤ_iff (pos 0) p, numbers-Ready 33 0 (omega arith));
  word = omega arith;
}

add_permits-Leftover_example : Leftover 1 32 crowd (add_permits 1 33 crowd)
unfolding get eqb_ℤ get_mut_or_create service_order is_waiting is_closed available_permits
add_permits-Leftover_example =
    add_permits-Leftover 0 33 crowd (numbers 32 0) [] 32 crowd-IsSound (λ i h. refl) refl
      (omega arith) refl refl (λ i at. (refl, (i, refl))) refl (omega arith)
