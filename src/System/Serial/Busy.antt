-- ===== src/System/Serial/Busy.antt =====
-- Threads whose calls do not overlap: no permit lies available while a task waits.
use ranked_semaphore.WaitQueue
use ranked_semaphore.System.{System}
use ranked_semaphore.WaitQueue.{push_waiter}
use ranked_semaphore.System.Serial.{Serial}
