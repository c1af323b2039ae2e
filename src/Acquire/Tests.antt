-- ===== src/Acquire/Tests.antt =====
-- Examples for futures.rs.
use ranked_semaphore.Common.{◌≡◌, refl, some, none, arith}
use ranked_semaphore.Common.Int.{pos}
use ranked_semaphore.Waiter.{new_handle}
use ranked_semaphore.WaitQueue
use ranked_semaphore.WaitQueue.{push_waiter}
use ranked_semaphore.Semaphore.{available_permits, is_closed}
use ranked_semaphore.Acquire.{
  Acquire, acquire_many_owned_with_priority, acquire_many_with_priority, quiet, poll, drop,
}
use ranked_semaphore.Config
use ranked_semaphore.Config.{fifo}
use ranked_semaphore.Acquire.Missed.{Missed, poll-Missed, released_meanwhile}
use ranked_semaphore.Acquire.Refusing.{Refused, poll-Refused}
use ranked_semaphore.Acquire.Owned
use ranked_semaphore.Acquire.Owned.{owned-agrees}
use ranked_semaphore.Acquire.Dropping.{Dropped, drop-Dropped}
use ranked_semaphore.Acquire.Races.{overtaken}
use ranked_semaphore.Samples.{busy, busy-IsSound, closing, idle}

abbrev two : Acquire
two = record { semaphore = 0; permits_needed = 2; priority = pos 5; waiter_handle = none }

abbrev queued_two : Acquire
queued_two = record { semaphore = 0; permits_needed = 2; priority = pos 5; waiter_handle = some 0 }

drop-Dropped_example : Dropped 0 busy (drop queued_two busy)
unfolding push_waiter WaitQueue.new new_handle
drop-Dropped_example = drop-Dropped queued_two busy 0 refl (omega arith) busy-IsSound

owned-agrees_example :
    (acquire_many_owned_with_priority 0 (pos 5) 2 ≡ acquire_many_with_priority 0 (pos 5) 2)
    × (Owned.poll two 9 (overtaken 3) idle ≡ poll two 9 (overtaken 3) idle)
    × (Owned.drop two idle ≡ drop two idle)
owned-agrees_example = owned-agrees two 0 2 9 (overtaken 3) idle

poll-Missed_example : Missed two idle (poll two 9 (released_meanwhile 2) idle)
unfolding is_closed available_permits
poll-Missed_example =
    poll-Missed two 9 idle (Config.default_strategy Config.new fifo) refl (omega arith)
      (omega arith) refl (omega arith) refl

-- A queued future, while the semaphore is being closed.
poll-Refused_example : Refused queued_two closing quiet (poll queued_two 9 quiet closing).poll
unfolding is_closed
poll-Refused_example =
    poll-Refused queued_two 9 quiet closing refl (record { on_look = λ w c. c; on_flag = λ w c. c })
