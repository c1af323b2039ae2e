-- ===== src/WaitQueue/Select.antt =====
-- queue.rs, `select_waiters_to_notify` and its two strategies: which waiters a number of permits
-- serves.
use ranked_semaphore.Common.{
  ℕ, ◌+◌, ◌-◌, Bool, true, false, not, ◌&&◌, ◌||◌, Option, none, some, List, [], ◌∷◌, ltb, leb,
  ◌==◌, length, retain, if◌then◌else◌,
}
use ranked_semaphore.Common
use ranked_semaphore.Common.Int.{ℤ}
use ranked_semaphore.Common.Word.{sub_usize}
use ranked_semaphore.Waker
use ranked_semaphore.Waker.{WakeList, can_push, push, push_unchecked}
use ranked_semaphore.Waiter.{Store, write, try_notify, take_waker_under_lock, is_cancelled}
use ranked_semaphore.PriorityMap.{PriorityQueues, get, insert, remove}
use ranked_semaphore.PriorityHeap
use ranked_semaphore.WaitQueue.{WaitQueue}

-- What the loops change: the permits that are left, the wakers to wake, the permits that are
-- assigned, the number of waiters in the queue, and the waiters.
pub record Batch : Type 0 where
  pub available : ℕ
  pub wake_list : WakeList
  pub assigned : ℕ
  pub total_waiters : ℕ
  pub store : Store

unfoldable pub collect : Option ℕ → WakeList → WakeList
collect none l = l
collect (some k) l = if can_push l then push_unchecked l k else push l k

-- A waiter that the permits suffice for is taken off the queue and notified. The caller has tested
-- `permits_needed <= available_permits`, so the subtraction is exact, and what is assigned stays
-- within the permits that there were.
unfoldable pub serve : ℕ → Batch → Batch
serve i b =
    let needed = (b.store.cell i).permits_needed in
    let (w, won) = try_notify (b.store.cell i) in
    let (waker, w') = take_waker_under_lock w in
    record {
      available = b.available - needed;
      wake_list = if won then collect waker b.wake_list else b.wake_list;
      assigned = b.assigned + needed;
      total_waiters = sub_usize b.total_waiters 1;
      store = write b.store i (if won then w' else w);
    }

unfoldable pub discard : Batch → Batch
discard b = record b { total_waiters = sub_usize b.total_waiters 1 }

-- The loop of `process_single_priority_fast`: what is left of the queue, and the batch.
unfoldable pub serve_single : List ℕ → Batch → List ℕ × Batch
serve_single [] b = ([], b)
serve_single (i ∷ is) b =
    let dropped = serve_single is (discard b) in
    let served = serve_single is (serve i b) in
    if not (can_push b.wake_list) || b.available == 0
    then (i ∷ is, b)
    else if is_cancelled (b.store.cell i)
    then dropped
    else if ltb b.available (b.store.cell i).permits_needed
    then (i ∷ is, b)
    else served

-- The inner loop of `process_multiple_priorities_optimized`, with `processed_any`.
unfoldable pub serve_level : List ℕ → Batch → Bool → List ℕ × Batch × Bool
serve_level [] b processed = ([], b, processed)
serve_level (i ∷ is) b processed =
    let dropped = serve_level is (discard b) processed in
    let served = serve_level is (serve i b) true in
    if not (can_push b.wake_list) || b.available == 0
    then (i ∷ is, b, processed)
    else if ltb b.available (b.store.cell i).permits_needed
    then (i ∷ is, b, processed)
    else if is_cancelled (b.store.cell i)
    then dropped
    else served

-- What one round of the outer loop leaves behind.
pub record Level : Type 0 where
  pub queue : List ℕ
  pub batch : Batch
  pub processed_any : Bool

-- One priority: its queue is served, and rid of the cancelled waiters that are left in it.
unfoldable pub process_level : List ℕ → Batch → Level
process_level queue b =
    let (rest, b', processed) = serve_level queue b false in
    let kept = retain (λ i. not (is_cancelled (b'.store.cell i))) rest in
    let cancelled_count = length rest - length kept in
    record {
      queue = kept;
      batch = record b' {
        total_waiters =
            if leb cancelled_count b'.total_waiters
            then sub_usize b'.total_waiters cancelled_count
            else b'.total_waiters;
      };
      processed_any = processed;
    }

pub record Levels : Type 0 where
  pub active : List ℤ
  pub queues : PriorityQueues
  pub batch : Batch
  pub to_restore : List ℤ

-- The outer loop. Its first two cases under `get` are the test `!has_non_empty_queue(priority)`.
unfoldable pub serve_levels : List ℤ → PriorityQueues → Batch → List ℤ → Levels
serve_levels [] m b restore = record { active = []; queues = m; batch = b; to_restore = restore }
serve_levels (p ∷ ps) m b restore =
    let stop : Levels = record { active = p ∷ ps; queues = m; batch = b; to_restore = restore } in
    let skip = serve_levels ps m b restore in
    if b.available == 0 || not (can_push b.wake_list) then stop else elim (get p m) [
      | none ↦ skip
      | some [] ↦ skip
      | some (i ∷ is) ↦
          let level = process_level (i ∷ is) b in
          let m' = insert p level.queue m in
          let restore' = if Common.is_empty level.queue then restore else p ∷ restore in
          let done : Levels = record {
            active = ps;
            queues = m';
            batch = level.batch;
            to_restore = restore';
          } in
          let more = serve_levels ps m' level.batch restore' in
          if ltb b.available (b.store.cell i).permits_needed
          then stop
          else if level.processed_any && not (can_push level.batch.wake_list)
          then done
          else more
    ]

-- The queue and the waiters afterwards, the wakers to wake, and the permits that were assigned.
pub record Selection : Type 0 where
  pub queue : WaitQueue
  pub store : Store
  pub wake_list : WakeList
  pub assigned : ℕ

abbrev pub start : WaitQueue → Store → ℕ → Batch
start q m available = record {
  available = available;
  wake_list = Waker.new;
  assigned = 0;
  total_waiters = q.total_waiters;
  store = m;
}

abbrev pub finish : WaitQueue → PriorityQueues → List ℤ → Batch → Selection
finish q queues active b = record {
  queue = record q {
    priority_queues = queues;
    active_priorities = active;
    total_waiters = b.total_waiters;
  };
  store = b.store;
  wake_list = b.wake_list;
  assigned = b.assigned;
}

-- The branch for one active priority.
unfoldable pub select_single : WaitQueue → ℤ → Batch → Selection
select_single q p b = elim (get p q.priority_queues) [
  | none ↦ finish q q.priority_queues [] b
  | some queue ↦
      let (rest, b') = serve_single queue b in
      let removed = remove p q.priority_queues in
      if Common.is_empty rest
      then finish q removed [] b'
      else finish q (insert p rest removed) (PriorityHeap.push p []) b'
]

-- `process_multiple_priorities_optimized`.
unfoldable pub select_multiple : WaitQueue → Batch → Selection
select_multiple q b =
    let l = serve_levels q.active_priorities q.priority_queues b [] in
    finish q l.queues (PriorityHeap.push_all (Common.reverse l.to_restore) l.active) l.batch

-- The test `self.active_priorities.len() == 1`.
unfoldable pub select_by : List ℤ → WaitQueue → Batch → Selection
select_by (p ∷ []) q b = select_single q p b
select_by _ q b = select_multiple q b

unfoldable pub select_waiters_to_notify : WaitQueue → Store → ℕ → Selection
select_waiters_to_notify q m available =
    let b = start q m available in
    if available == 0 || q.total_waiters == 0
    then finish q q.priority_queues q.active_priorities b
    else select_by q.active_priorities q b
