-- ===== src/WaitQueue.antt =====
-- ranked-semaphore/src/wait_queue/queue.rs, `WaitQueue`: the waiters of the semaphore by priority.
-- The methods run under the mutex of the semaphore, so each is a function of the queue and of the
-- store of waiters. Counters are `usize` and wrap.
pub mod Select
pub mod Rules
pub mod Selected
pub mod Telling
pub mod Ready
pub mod Demands
pub mod Serving
pub mod Upkeep
pub mod Invariant
pub mod LevelInvariant
pub mod SelectInvariant
pub mod Accounting
pub mod Order
pub mod Settling
pub mod LevelRanking
pub mod Ranking
pub mod Draining
pub mod Cancelling
pub mod Overtaking
pub mod ServiceOrder
pub mod Remaining
pub mod HandingOut
pub mod Hashing
pub mod Alone
pub mod Turns
pub mod Blocking
mod Tests
use ranked_semaphore.Common.Format.{Formatting}
use ranked_semaphore.Common.{
  length, ℕ, ◌+◌, Bool, true, false, not, Option, none, some, List, [], ◌∷◌, ◌++◌, ltb, ◌==◌,
  if◌then◌else◌,
}
use ranked_semaphore.Common.Int.{ℤ}
use ranked_semaphore.Common.Word.{add_usize, sub_usize}
use ranked_semaphore.Config.{QueueStrategy, fifo, lifo, PriorityConfig, resolve_strategy}
use ranked_semaphore.Waiter.{Store, write, cancel, new_handle}
use ranked_semaphore.PriorityMap.{
  PriorityQueues, get, insert, get_mut_or_create, has_non_empty_queue, drain_all_waiters,
}
use ranked_semaphore.PriorityHeap

pub record WaitQueue : Type 0 where
  pub priority_queues : PriorityQueues
  pub active_priorities : List ℤ
  pub config : PriorityConfig
  pub closed : Bool
  pub total_waiters : ℕ

unfoldable pub new : PriorityConfig → WaitQueue
new config = record {
  priority_queues = [];
  active_priorities = [];
  config = config;
  closed = false;
  total_waiters = 0;
}

abbrev pub enqueue : QueueStrategy → ℕ → List ℕ → List ℕ
enqueue fifo waiter queue = queue ++ waiter ∷ []
enqueue lifo waiter queue = waiter ∷ queue

unfoldable pub insert_waiter_optimized : WaitQueue → ℕ → ℤ → WaitQueue
insert_waiter_optimized q waiter priority =
    let strategy = resolve_strategy q.config priority in
    let was_empty = not (has_non_empty_queue priority q.priority_queues) in
    let queue = get_mut_or_create priority q.priority_queues in
    let active =
      if was_empty then PriorityHeap.push priority q.active_priorities else q.active_priorities in
    record q {
      priority_queues = insert priority (enqueue strategy waiter queue) q.priority_queues;
      active_priorities = active;
      total_waiters = add_usize q.total_waiters 1;
    }

-- The handle, and the queue and the store with the new waiter.
unfoldable pub push_waiter : WaitQueue → Store → ℕ → ℤ → ℕ × WaitQueue × Store
unfolding insert_waiter_optimized
push_waiter q m permits_needed priority =
    let (handle, m') = new_handle m permits_needed priority in
    (handle, insert_waiter_optimized q handle priority, m')

unfoldable pub is_empty : WaitQueue → Bool
is_empty q = q.total_waiters == 0

-- The queue without the first occurrence of the waiter, if it has one.
unfoldable pub remove_first : ℕ → List ℕ → Option (List ℕ)
remove_first i [] = none
remove_first i (j ∷ js) =
    if j == i then some js else elim (remove_first i js) [ none ↦ none | some ks ↦ some (j ∷ ks) ]

unfoldable pub remove_waiter : WaitQueue → Store → ℕ → WaitQueue
unfolding remove_first
remove_waiter q m waiter =
    let priority = (m.cell waiter).priority in
    elim (get priority q.priority_queues) [
      | none ↦ q
      | some queue ↦ elim (remove_first waiter queue) [
        | none ↦ q
        | some rest ↦ record q {
          priority_queues = insert priority rest q.priority_queues;
          total_waiters =
              if ltb 0 q.total_waiters then sub_usize q.total_waiters 1 else q.total_waiters;
        }
      ]
    ]

-- `for waiter in all_waiters { waiter.cancel() }`, with the tasks that are woken.
unfoldable pub cancel_all : List ℕ → Store → Store × List ℕ
cancel_all [] m = (m, [])
cancel_all (i ∷ is) m =
    let (w, woken) = cancel (m.cell i) in
    let (m', more) = cancel_all is (write m i w) in (m', woken ++ more)

unfoldable pub close : WaitQueue → Store → WaitQueue × Store × List ℕ
unfolding cancel_all
close q m =
    let all_waiters = drain_all_waiters q.priority_queues in
    let (m', woken) = cancel_all all_waiters m in
    (
      record q { priority_queues = []; active_priorities = []; closed = true; total_waiters = 0 },
      m',
      woken,
    )

unfoldable pub fmt : {F : Type 0} {D : Type 0} {R : Type 0} → Formatting F D R → WaitQueue → F → R
fmt out q f =
    let d = out.debug_struct f "WaitQueue" in
    let d = out.field_nat d "total_waiters" q.total_waiters in
    let d = out.field_nat d "active_priorities" (length q.active_priorities) in
    let d = out.field_nat d "priority_queues" (length q.priority_queues) in
    out.finish (out.field_bool d "closed" q.closed)
