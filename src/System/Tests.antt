-- ===== src/System/Tests.antt =====
-- Examples for the system of threads.
use ranked_semaphore.PriorityHeap.Laws.{contains}
use ranked_semaphore.Waker
use ranked_semaphore.PriorityHeap
use ranked_semaphore.Common.{Option, none, some}
use ranked_semaphore.Error.{Exit}
use ranked_semaphore.Permit
use ranked_semaphore.Acquire.{acquire_with_priority, poll, quiet}
use ranked_semaphore.Semaphore.{World}
use ranked_semaphore.Semaphore.Release.{add_permits}
use ranked_semaphore.System.Serial.{Serial}
use ranked_semaphore.Common.{◌+◌, ◌^◌, ◌∙◌, ◌<◌, ◌≤◌, ◌≡◌, refl, false, [], ◌∷◌, arith}
use ranked_semaphore.Common.Int.{pos}
use ranked_semaphore.Config.{new}
use ranked_semaphore.Waiter.{is_waiting, new_handle, set_waker}
use ranked_semaphore.Waiter.Reserved.{reserved}
use ranked_semaphore.WaitQueue
use ranked_semaphore.WaitQueue.{push_waiter}
use ranked_semaphore.Semaphore.{
  RankedSemaphore, max_permits, new_with_config, is_closed, available_permits, close_word,
}
use ranked_semaphore.Semaphore.Batches.{IsSound}
use ranked_semaphore.Semaphore.Sections.{locking, advance}
use ranked_semaphore.TryAcquire.{try_acquire_many}
use ranked_semaphore.System.{
  System, takes, enters, leaves_waker, drops, goes_on, closes, Reach, start, later, fresh, enter,
  leave_waker, unfinished,
}
use ranked_semaphore.System.Standing.{reach-standing}
use ranked_semaphore.WaitQueue.ServiceOrder.{queue_at, service_order}
use ranked_semaphore.WaitQueue.Ready.{member}
use ranked_semaphore.Common.{true}
use ranked_semaphore.System.Advances.{advance-Advances}
use ranked_semaphore.System.Accounts.{held_sum, calls_sum}
use ranked_semaphore.System.Conservation.{reach-Inv, reach-accounted, reach-within}
use ranked_semaphore.System.Shutdown.{Shut, steps-Shut}
use ranked_semaphore.System.{here, then, Steps}
use ranked_semaphore.System.Finishing.{reach-finishes}

abbrev three : RankedSemaphore
three = record { permits = 6; waiters = WaitQueue.new new }

-- A thread takes two of the three permits.
abbrev pub taken : System
taken = record (fresh 3 three) {
  world = record (fresh 3 three).world {
    sem = record { permits = 2; waiters = WaitQueue.new new };
  };
  held = record { sem = 0; permits = 2 } ∷ [];
}

-- A future for two permits enters the queue and leaves its waker.
abbrev pub queued : System
queued = record taken { world = leave_waker 0 7 (enter 2 (pos 5) taken.world) }

-- The permit object is dropped.
abbrev dropping : System
dropping = record queued { held = []; calls = locking 2 ∷ [] }

-- The section under the lock of the call that the drop has started.
abbrev notifying : System
notifying = record dropping {
  world = (advance (locking 2) dropping.world).0;
  calls = unfinished (advance (locking 2) dropping.world).1 [];
}

pub taken-Reach : Reach 3 new taken
unfolding new_with_config try_acquire_many
taken-Reach = later (start three refl) (takes 2 2 (omega arith) (omega arith) refl)

pub queued-Reach : Reach 3 new queued
unfolding is_closed WaitQueue.new push_waiter new_handle
queued-Reach =
    later (later taken-Reach (enters 2 (pos 5) refl (omega arith))) (leaves_waker 0 7 (omega arith))

dropping-Reach : Reach 3 new dropping
dropping-Reach = later queued-Reach (drops [] [] (record { sem = 0; permits = 2 }) refl)

notifying-Reach : Reach 3 new notifying
notifying-Reach = later dropping-Reach (goes_on [] [] (locking 2) refl)

open_queued : is_closed dropping.world.permits ≡ false
unfolding is_closed push_waiter
open_queued = refl

word_room : available_permits dropping.world.permits + 2 < 2 ^ 63
unfolding available_permits push_waiter
word_room = omega arith

still_open : is_closed notifying.world.permits ≡ false
still_open =
    let i = reach-Inv dropping-Reach in
    (advance-Advances (locking 2) dropping.world i.sound (λ o. word_room)).flag ∙ open_queued

reach-accounted_example :
    available_permits notifying.world.permits
      + reserved notifying.world.store
      + held_sum notifying.held
      + calls_sum notifying.calls
      + notifying.gone
    ≡ 3
reach-accounted_example = reach-accounted notifying-Reach still_open

reach-within_example : (held_sum queued.held ≤ 3) × (3 ≤ max_permits) × IsSound queued.world
reach-within_example = reach-within queued-Reach

reach-standing_example :
    let q = queued.world.waiters in
    let p = (queued.world.store.cell 0).priority in
    (member 0 (queue_at q.priority_queues p) ≡ true)
    × (contains p q.active_priorities ≡ true)
    × (member 0 (service_order q.active_priorities (queue_at q.priority_queues)) ≡ true)
unfolding is_waiting push_waiter new_handle set_waker
reach-standing_example = reach-standing 0 queued-Reach (omega arith) refl

reach-finishes_example :
    (v : World) × Steps notifying (record notifying { world = v; calls = [] })
    × (is_closed v.permits ≡ false)
    × (available_permits v.permits + reserved v.store + 0 + 0 ≡ 3)
unfolding held_sum
reach-finishes_example = reach-finishes notifying-Reach still_open

abbrev shut : System
shut = record queued { world = close_word queued.world }

shut-Reach : Reach 3 new shut
shut-Reach = later queued-Reach closes

steps-Shut_example : Shut shut (record shut { held = []; calls = locking 2 ∷ [] })
unfolding is_closed close_word push_waiter
steps-Shut_example =
    steps-Shut shut-Reach refl (then here (drops [] [] (record { sem = 0; permits = 2 }) refl))

-- One permit: a thread takes it, a task waits for it and gets it when it is dropped, and another
-- permit is added.
abbrev one_permit : RankedSemaphore
one_permit = record { permits = 2; waiters = WaitQueue.new new }

abbrev lone : System
lone = record (fresh 1 one_permit) {
  world = record (fresh 1 one_permit).world {
    sem = record { permits = 0; waiters = WaitQueue.new new };
  };
  held = record { sem = 0; permits = 1 } ∷ [];
}

abbrev waiting_task : System
waiting_task = record lone {
  world = (poll (acquire_with_priority 0 (pos 5)) 7 quiet lone.world).world;
}

-- The world that a call leaves that ends.
abbrev left_world : World → Option (World × Exit (Unit {0})) → World
left_world w none = w
left_world w (some (v, e)) = v

abbrev served_task : System
served_task = record waiting_task {
  world =
      left_world waiting_task.world
        (Permit.drop 1 (record { sem = 0; permits = 1 }) waiting_task.world);
  held = [];
}

abbrev spare_permit : System
spare_permit = record served_task {
  world = left_world served_task.world (add_permits 1 1 served_task.world);
  supply = 2;
}
