-- ===== src/WaitQueue/Overtaking.antt =====
-- queue.rs, `process_multiple_priorities_optimized`: a waiter of a higher priority that needs more
-- than is left, behind one that was served.
use ranked_semaphore.Common.{
  ℕ, ◌+◌, ◌-◌, ◌≤◌, ◌<◌, ◌≡◌, refl, ap, ◌∙◌, ◌≢◌, true, false, not, ◌||◌, ◌&&◌, Option, some, none,
  List, [], ◌∷◌, ◌==◌, ltb, arith, lt→ltb, if_rule,
}
use ranked_semaphore.Common.Int.{ℤ, eqb_ℤ_iff}
use ranked_semaphore.Waker
use ranked_semaphore.Waker.{WakeList, can_push, push, push_unchecked}
use ranked_semaphore.Waiter.{
  WaiterState, Store, write, is_waiting, is_notified, is_cancelled, try_notify,
  take_waker_under_lock,
}
use ranked_semaphore.PriorityMap.{PriorityQueues, get, insert}
use ranked_semaphore.PriorityMap.Laws.{get-insert}
use ranked_semaphore.WaitQueue.{WaitQueue}
use ranked_semaphore.WaitQueue.ServiceOrder.{told}
use ranked_semaphore.WaitQueue.Settling.{is_spent, served_round}
use ranked_semaphore.WaitQueue.Blocking.{select_by-several}
use ranked_semaphore.WaitQueue.Select.{
  Batch, collect, serve, serve_level, process_level, Level, Levels, serve_levels, select_multiple,
  select_waiters_to_notify, start,
}

waiting_facts :
    (w : WaiterState)
    → is_waiting w ≡ true
    → (is_cancelled w ≡ false) × (is_notified (told w) ≡ true)
unfolding is_waiting is_cancelled is_notified
waiting_facts w e = ground arith

notify_waiting :
    (w : WaiterState)
    → is_waiting w ≡ true
    → try_notify w ≡ (record w { state = (told w).state }, true)
unfolding is_waiting try_notify
notify_waiting w e = ground arith

-- Serving one waiter that waits.
serve-waiting :
    (i : ℕ) (b : Batch)
    → is_waiting (b.store.cell i) ≡ true
    → (serve i b).store ≡ write b.store i (told (b.store.cell i))
unfolding serve take_waker_under_lock
serve-waiting i b waits = rw (notify_waiting (b.store.cell i) waits) refl

serve-available :
    (i : ℕ) (b : Batch) → (serve i b).available ≡ b.available - (b.store.cell i).permits_needed
unfolding serve
serve-available i b = refl

collect_room : (k : Option ℕ) → can_push (collect k Waker.new) ≡ true
unfolding collect can_push push push_unchecked Waker.new
collect_room none = refl
collect_room (some k) = refl

room_after : (i : ℕ) (b : Batch) → b.wake_list ≡ Waker.new → can_push (serve i b).wake_list ≡ true
unfolding serve can_push Waker.new
room_after i b e = rw e (
    if_rule (λ (l : WakeList). can_push l ≡ true) (try_notify (b.store.cell i)).1 (collect_room _)
      refl)

-- The queue of the higher priority: `i` is served, and `k` stops the loop.
module _ (i k : ℕ) (ks : List ℕ) (b : Batch) (waits : is_waiting (b.store.cell i) ≡ true)
    (fresh : b.wake_list ≡ Waker.new) (left : (b.store.cell i).permits_needed < b.available)
    (few : b.available < (b.store.cell i).permits_needed + (b.store.cell k).permits_needed)
    (apart : i ≢ k) where
  new_room : can_push b.wake_list ≡ true
  unfolding can_push Waker.new
  new_room = rw fresh refl

  untouched : (serve i b).store.cell k ≡ b.store.cell k
  untouched = rw (serve-waiting i b waits) (ground arith)

  goes : (not (can_push b.wake_list) || b.available == 0) ≡ false
  goes = ground (arith, new_room)

  fits : ltb b.available (b.store.cell i).permits_needed ≡ false
  fits = ground arith

  goes_on : (not (can_push (serve i b).wake_list) || (serve i b).available == 0) ≡ false
  goes_on = ground (arith, room_after i b fresh, serve-available i b)

  lacks : ltb (serve i b).available ((serve i b).store.cell k).permits_needed ≡ true
  lacks = rw (untouched, serve-available i b) (lt→ltb _ _ (omega arith))

  level_stops : serve_level (i ∷ k ∷ ks) b false ≡ (k ∷ ks, serve i b, true)
  unfolding serve_level
  level_stops = rw (goes, fits, (waiting_facts (b.store.cell i) waits).0, goes_on, lacks) refl

-- The queue of the lower priority, with the one waiter `j`.
module _ (j : ℕ) (b : Batch) (waits : is_waiting (b.store.cell j) ≡ true)
    (room : can_push b.wake_list ≡ true) (some_left : 0 < b.available)
    (enough : (b.store.cell j).permits_needed ≤ b.available) where
  level_serves : serve_level (j ∷ []) b false ≡ ([], serve j b, true)
  unfolding serve_level
  level_serves =
      let goes : (not (can_push b.wake_list) || b.available == 0) ≡ false = ground arith in
      let fits : ltb b.available (b.store.cell j).permits_needed ≡ false = ground arith in
      rw (goes, fits, (waiting_facts (b.store.cell j) waits).0) refl

  -- A statement about the store holds after the last round if it holds once `j` is served.
  last_level :
      (r : ℤ) (m : PriorityQueues) (restore : List ℤ)
      → get r m ≡ some (j ∷ [])
      → (serve_levels (r ∷ []) m b restore).batch.store ≡ write b.store j (told (b.store.cell j))
  unfolding is_spent process_level serve_levels
  last_level r m restore e =
      let fresh : is_spent b ≡ false = ground arith in
      let fits : ltb b.available (b.store.cell j).permits_needed ≡ false = ground arith in
      let done : (process_level (j ∷ []) b).batch.store ≡ write b.store j (told (b.store.cell j)) =
        rw level_serves (serve-waiting j b waits) in
      rw (served_round r [] m b restore j [] fresh e fits) (
        if_rule (λ (l : Levels). l.batch.store ≡ write b.store j (told (b.store.cell j))) _ done
          done)

module _ (p r : ℤ) (m : PriorityQueues) (i k j : ℕ) (ks : List ℕ) (b : Batch)
    (upper : get p m ≡ some (i ∷ k ∷ ks)) (under : get r m ≡ some (j ∷ [])) (ranks : p ≢ r)
    (waits : is_waiting (b.store.cell i) ≡ true) (waits_k : is_waiting (b.store.cell k) ≡ true)
    (waits_j : is_waiting (b.store.cell j) ≡ true) (fresh : b.wake_list ≡ Waker.new)
    (left : (b.store.cell i).permits_needed < b.available)
    (few : b.available < (b.store.cell i).permits_needed + (b.store.cell k).permits_needed)
    (enough : (b.store.cell i).permits_needed + (b.store.cell j).permits_needed ≤ b.available)
    (apart : i ≢ k) (apart_j : i ≢ j) (between : j ≢ k) where
  abbrev upper_level : Level
  upper_level = process_level (i ∷ k ∷ ks) b

  stopped : serve_level (i ∷ k ∷ ks) b false ≡ (k ∷ ks, serve i b, true)
  stopped = level_stops i k ks b waits fresh left few apart

  upper_store : upper_level.batch.store ≡ write b.store i (told (b.store.cell i))
  unfolding process_level
  upper_store = rw stopped (serve-waiting i b waits)

  upper_available : upper_level.batch.available ≡ b.available - (b.store.cell i).permits_needed
  unfolding process_level
  upper_available = rw stopped (serve-available i b)

  upper_room : can_push upper_level.batch.wake_list ≡ true
  unfolding process_level
  upper_room = rw stopped (room_after i b fresh)

  under_stays : get r (insert p upper_level.queue m) ≡ some (j ∷ [])
  under_stays = ground (arith, get-insert r p upper_level.queue m, eqb_ℤ_iff p r)

  same_j : upper_level.batch.store.cell j ≡ b.store.cell j
  same_j = rw upper_store (ground arith)

  rest_store :
      (restore : List ℤ)
      → (serve_levels (r ∷ []) (insert p upper_level.queue m) upper_level.batch restore).batch.store
        ≡ write (write b.store i (told (b.store.cell i))) j (told (b.store.cell j))
  rest_store restore =
      last_level j upper_level.batch (ap is_waiting same_j ∙ waits_j) upper_room
        (omega (arith, upper_available)) (rw same_j (omega (arith, upper_available))) r
        (insert p upper_level.queue m) restore under_stays
      ∙ ap (λ w. write upper_level.batch.store j (told w)) same_j
      ∙ ap (λ st. write st j (told (b.store.cell j))) upper_store

  spent_not : is_spent b ≡ false
  unfolding is_spent
  spent_not = ground (arith, new_room i k ks b waits fresh left few apart)

  first_level :
      (restore : List ℤ)
      → (serve_levels (p ∷ r ∷ []) m b restore).batch.store
        ≡ write (write b.store i (told (b.store.cell i))) j (told (b.store.cell j))
  first_level restore =
      let fits : ltb b.available (b.store.cell i).permits_needed ≡ false = ground arith in
      let going : (upper_level.processed_any && not (can_push upper_level.batch.wake_list))
          ≡ false =
        ground (arith, upper_room) in
      rw (served_round p (r ∷ []) m b restore i (k ∷ ks) spent_not upper fits, going) (rest_store _)

  both_cells :
      (n : Store)
      → n ≡ write (write b.store i (told (b.store.cell i))) j (told (b.store.cell j))
      → (is_notified (n.cell j) ≡ true) × (is_waiting (n.cell k) ≡ true)
  unfolding is_notified
  both_cells n e = rw e (ground arith)

-- If exactly two priorities are active, and of the higher one the first waiter takes part of the n
-- permits and the second needs more than is left, while what is left is enough for the one waiter
-- of the lower priority, then selecting notifies that waiter of the lower priority, and the second
-- waiter of the higher priority waits on.
pub select_overtakes :
    (q : WaitQueue) (m : Store) (n : ℕ) (p r : ℤ) (i k j : ℕ) (ks : List ℕ)
    → q.active_priorities ≡ p ∷ r ∷ []
    → get p q.priority_queues ≡ some (i ∷ k ∷ ks)
    → get r q.priority_queues ≡ some (j ∷ [])
    → p ≢ r
    → i ≢ k
    → i ≢ j
    → j ≢ k
    → is_waiting (m.cell i) ≡ true
    → is_waiting (m.cell k) ≡ true
    → is_waiting (m.cell j) ≡ true
    → 0 < q.total_waiters
    → (m.cell i).permits_needed < n
    → n < (m.cell i).permits_needed + (m.cell k).permits_needed
    → (m.cell i).permits_needed + (m.cell j).permits_needed ≤ n
    → (let after = (select_waiters_to_notify q m n).store in
        (is_notified (after.cell j) ≡ true) × (is_waiting (after.cell k) ≡ true))
unfolding select_waiters_to_notify select_multiple
select_overtakes q m n p r i k j ks active upper under ranks apart apart_j between wi wk wj
      some_wait left few enough =
    let b = start q m n in
    let stay : (n == 0 || q.total_waiters == 0) ≡ false = ground arith in
    let out =
      first_level p r q.priority_queues i k j ks b upper under ranks wi wk wj refl left few enough
        apart apart_j between in
    rw (stay, select_by-several q.active_priorities p r [] q b active, active)
      (both_cells p r q.priority_queues i k j ks b upper under ranks wi wk wj refl left few enough
        apart apart_j between _ (out []))
