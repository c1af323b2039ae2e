-- ===== src/WaitQueue/Tests.antt =====
-- Examples for queue.rs.
use mathlib.Core.List.{Perm}
use ranked_semaphore.PriorityMap.{PriorityQueues}
use ranked_semaphore.PriorityMap.Hashing.{SameMap}
use ranked_semaphore.WaitQueue.Hashing.{rehashed, SameQueue, SameSelection}
use ranked_semaphore.WaitQueue.Hashing.Updates.{operations-agree}
use ranked_semaphore.Common.Int.{eqb_ℤ, eqb_ℤ_iff}
use ranked_semaphore.Config.{new}
use ranked_semaphore.Waiter.{Store, waiting, is_notified, write}
use ranked_semaphore.PriorityMap.{get, drain_all_waiters, has_non_empty_queue}
use ranked_semaphore.PriorityMap.Laws.{total}
use ranked_semaphore.PriorityHeap.Laws.{contains}
use ranked_semaphore.WaitQueue.{WaitQueue}
use ranked_semaphore.WaitQueue.Ready.{member, AllReady}
use ranked_semaphore.Waiter.{cancelled}
use ranked_semaphore.Waker
use ranked_semaphore.WaitQueue.HandingOut.Selections.{HandsOut, select-HandsOut}
use ranked_semaphore.WaitQueue.ServiceOrder.{told, hand_out, service_order}
use ranked_semaphore.WaitQueue.Overtaking.{select_overtakes}
use ranked_semaphore.PriorityMap.{get_mut_or_create}
use ranked_semaphore.Waiter.{is_waiting}
use ranked_semaphore.Common.{true}
use ranked_semaphore.WaitQueue.Blocking.{select_blocked}
use ranked_semaphore.Common.{◌≡◌, if◌then◌else◌, ◌==◌, some, false}
use ranked_semaphore.Common.{arith, refl, [], ◌∷◌}
use ranked_semaphore.Common.Int.{pos}
use ranked_semaphore.WaitQueue
use ranked_semaphore.WaitQueue.{push_waiter, remove_waiter}
use ranked_semaphore.WaitQueue.Select.{select_waiters_to_notify}
use ranked_semaphore.WaitQueue.Invariant.{IsValid}
use ranked_semaphore.WaitQueue.SelectInvariant.{operations-IsValid}
use ranked_semaphore.WaitQueue.Accounting.{Accounted, select-Accounted}
use ranked_semaphore.WaitQueue.Order.{ServesQueue, select-ServesQueue}
use ranked_semaphore.PriorityMap.{get_mut_or_create}
use ranked_semaphore.Samples.{closing, closing-IsSound, busy, busy-IsSound}

operations-IsValid_example :
    IsValid (select_waiters_to_notify busy.waiters busy.store 2).queue
    × IsValid (push_waiter busy.waiters busy.store 3 (pos 5)).1
    × IsValid (remove_waiter busy.waiters busy.store 0)
    × IsValid (WaitQueue.close busy.waiters busy.store).0
unfolding push_waiter WaitQueue.new
operations-IsValid_example =
    operations-IsValid busy.waiters busy.store 2 0 3 (pos 5) busy-IsSound.valid (omega arith)

select-Accounted_example :
    Accounted busy.store 2 (select_waiters_to_notify busy.waiters busy.store 2)
select-Accounted_example =
    select-Accounted busy.waiters busy.store 2 busy-IsSound.valid busy-IsSound.ready

select-ServesQueue_example :
    ServesQueue
      (pos 5)
      3
      (get_mut_or_create (pos 5) closing.waiters.priority_queues)
      closing.store
      (select_waiters_to_notify closing.waiters closing.store 3)
unfolding WaitQueue.is_empty
select-ServesQueue_example =
    select-ServesQueue closing.waiters closing.store 3 (pos 5) closing-IsSound.valid refl
      (omega arith) refl

-- Two tasks that need one permit each, at the priorities 5 and 0.
abbrev two_ranks : WaitQueue
two_ranks = record {
  priority_queues = (pos 5, 0 ∷ []) ∷ (pos 0, 1 ∷ []) ∷ [];
  active_priorities = pos 5 ∷ pos 0 ∷ [];
  config = new;
  closed = false;
  total_waiters = 2;
}

abbrev two_tasks : Store
two_tasks = record {
  next = 2;
  cell = λ i. record {
    state = waiting;
    permits_needed = 1;
    waker = record { waker = some i };
    priority = if i == 0 then pos 5 else pos 0;
  };
}

two_ranks-IsValid : IsValid two_ranks
unfolding total drain_all_waiters has_non_empty_queue get contains eqb_ℤ
two_ranks-IsValid = record {
  counted = refl;
  small = omega arith;
  unique = (refl, (refl, tt));
  descending = ((omega arith, tt), (tt, tt));
  covered = λ p h. ground arith;
}

two_ranks-AllReady : AllReady two_ranks.priority_queues two_tasks
unfolding get is_notified member
two_ranks-AllReady p is e = ground (arith, eqb_ℤ_iff (pos 5) p, eqb_ℤ_iff (pos 0) p)

select-HandsOut_example :
    HandsOut 1
      (select_waiters_to_notify two_ranks two_tasks 1)
      (record { left = 0; tasks = 0 ∷ []; store = write two_tasks 0 (told (two_tasks.cell 0)) })
unfolding get eqb_ℤ get_mut_or_create hand_out service_order is_waiting
select-HandsOut_example =
    select-HandsOut two_ranks two_tasks 1 two_ranks-IsValid two_ranks-AllReady (λ i h. refl)

-- Two tasks at the priority 5, the second of which needs two permits, and one at the priority 0.
abbrev behind_rank : WaitQueue
behind_rank = record two_ranks {
  priority_queues = (pos 5, 0 ∷ 1 ∷ []) ∷ (pos 0, 2 ∷ []) ∷ [];
  total_waiters = 3;
}

abbrev behind_tasks : Store
behind_tasks = record {
  next = 3;
  cell = λ i. record {
    state = waiting;
    permits_needed = if i == 1 then 2 else 1;
    waker = record { waker = some i };
    priority = if i == 2 then pos 0 else pos 5;
  };
}

select_overtakes_example :
    let after = (select_waiters_to_notify behind_rank behind_tasks 2).store in
    (is_notified (after.cell 2) ≡ true) × (is_waiting (after.cell 1) ≡ true)
unfolding get eqb_ℤ is_waiting
select_overtakes_example =
    select_overtakes behind_rank behind_tasks 2 (pos 5) (pos 0) 0 1 2 [] refl refl refl
      (ground arith) (omega arith) (omega arith) (omega arith) refl refl refl (omega arith)
      (omega arith) (omega arith) (omega arith)

-- The task at the priority 5 needs two permits and was cancelled.
abbrev cancelled_head : Store
cancelled_head = record {
  next = 2;
  cell = λ i. record {
    state = if i == 0 then cancelled else waiting;
    permits_needed = if i == 0 then 2 else 1;
    waker = record { waker = some i };
    priority = if i == 0 then pos 5 else pos 0;
  };
}

select_blocked_example :
    select_waiters_to_notify two_ranks cancelled_head 1
    ≡ record { queue = two_ranks; store = cancelled_head; wake_list = Waker.new; assigned = 0 }
unfolding get eqb_ℤ
select_blocked_example =
    select_blocked two_ranks cancelled_head 1 (pos 5) (pos 0) [] 0 [] refl refl (omega arith)

-- The two entries of `two_ranks` in the other order.
abbrev turned : PriorityQueues
turned = (pos 0, 1 ∷ []) ∷ (pos 5, 0 ∷ []) ∷ []

turned-SameMap : SameMap two_ranks.priority_queues turned
unfolding get eqb_ℤ
turned-SameMap = record {
  found = λ p. ground (arith, eqb_ℤ_iff (pos 5) p, eqb_ℤ_iff (pos 0) p);
  unique = (refl, (refl, tt));
  unique' = (refl, (refl, tt));
}

operations-agree_example :
    let pushed = push_waiter two_ranks two_tasks 1 (pos 5) in
    let pushed' = push_waiter (rehashed two_ranks turned) two_tasks 1 (pos 5) in
    let closed = WaitQueue.close two_ranks two_tasks in
    let closed' = WaitQueue.close (rehashed two_ranks turned) two_tasks in
    SameSelection
      (select_waiters_to_notify two_ranks two_tasks 1)
      (select_waiters_to_notify (rehashed two_ranks turned) two_tasks 1)
    × ((pushed.0 ≡ pushed'.0) × SameQueue pushed.1 pushed'.1 × (pushed.2 ≡ pushed'.2))
    × SameQueue
        (remove_waiter two_ranks two_tasks 0)
        (remove_waiter (rehashed two_ranks turned) two_tasks 0)
    × (SameQueue closed.0 closed'.0
        × (closed.1.cell 1 ≡ closed'.1.cell 1)
        × Perm closed.2 closed'.2)
operations-agree_example =
    operations-agree two_ranks turned two_tasks 1 1 (pos 5) 0 1 turned-SameMap
