-- ===== src/Semaphore/Tests.antt =====
-- Examples for core.rs.
use ranked_semaphore.Common.{
  suc, zero, ◌≡◌, ◌≢◌, refl, true, false, some, none, [], ◌∷◌, arith, ◌==◌, ◌||◌,
}
use ranked_semaphore.Error.{returns}
use ranked_semaphore.Waiter.{is_notified, is_cancelled}
use ranked_semaphore.Waker
use ranked_semaphore.WaitQueue
use ranked_semaphore.Common.Int.{eqb_ℤ, pos}
use ranked_semaphore.Waker.{take_under_lock}
use ranked_semaphore.Waiter.{take_waker_under_lock, try_notify}
use ranked_semaphore.PriorityMap.{get, insert, remove}
use ranked_semaphore.PriorityHeap.{push}
use ranked_semaphore.WaitQueue.Select.{
  select_waiters_to_notify, select_by, select_single, serve_single, serve, discard, collect,
}
use ranked_semaphore.Semaphore.{
  World, available_permits, is_closed, close, close_word, close_queue, forget_permits,
}
use ranked_semaphore.Semaphore.Release.{add_permits, add_permits_locked}
use ranked_semaphore.Semaphore.Waking.{Wakes, add_permits-Wakes}
use ranked_semaphore.Semaphore.Sections.{
  locking, uninterrupted, interrupted, world_of, sections-agree,
}
use ranked_semaphore.Waiter.{is_waiting, set_waker, new_handle}
use ranked_semaphore.WaitQueue.{push_waiter}
use ranked_semaphore.Semaphore.Word.{forget_permits_lem}
use ranked_semaphore.Semaphore.Batches.{Released, add_permits-Released, add_permits_one_batch}
use ranked_semaphore.Semaphore.Overflow.{Added, add_permits-Added}
use ranked_semaphore.Semaphore.Closing.{Closed, close-Closed, left_early, add_permits_while_closing}
use ranked_semaphore.WaitQueue.Demands.{Wants}
use ranked_semaphore.Semaphore.Starving.{Starves, releases, add_permits-Starves}
use ranked_semaphore.Samples.{
  closing, closing-IsSound, idle, enter, one_waiter-IsSound, busy, busy-IsSound,
}

add_permits-Released_example : Released 5 busy (add_permits 1 5 busy)
unfolding is_closed available_permits
add_permits-Released_example = add_permits-Released 0 5 busy busy-IsSound refl (omega arith)

add_permits_one_batch_example :
    (add_permits 9 2 busy ≡ add_permits 1 2 busy) × (add_permits 9 2 busy ≢ none)
add_permits_one_batch_example = add_permits_one_batch 8 2 busy

close-Closed_example : Closed busy (close busy)
close-Closed_example = close-Closed busy busy-IsSound

forget_permits_lem_example : forget_permits 5 8 (6 ∷ 7 ∷ []) ≡ (3, 1)
unfolding available_permits is_closed
forget_permits_lem_example = forget_permits_lem 5 8 (6 ∷ 7 ∷ []) (omega arith) (omega arith)

selection_facts :
    let s = select_waiters_to_notify closing.waiters closing.store 2 in
    ((s.assigned == 0 || Waker.is_empty s.wake_list) ≡ false)
    × (is_notified (s.store.cell 0) ≡ true)
unfolding select_waiters_to_notify select_by select_single serve_single serve discard collect get
    insert remove eqb_ℤ push Waker.is_empty Waker.new Waker.push Waker.push_unchecked Waker.can_push
    take_waker_under_lock take_under_lock try_notify is_notified is_cancelled
selection_facts = (refl, refl)

add_permits_while_closing_example :
    (add_permits 1 2 closing ≡ some (left_early 2 closing, returns tt))
    × ((close_queue (left_early 2 closing)).store.cell 0
        ≡ (select_waiters_to_notify closing.waiters closing.store 2).store.cell 0)
unfolding is_closed WaitQueue.is_empty
add_permits_while_closing_example =
    add_permits_while_closing 0 2 0 closing closing-IsSound refl refl selection_facts.0
      (omega arith) selection_facts.1

add_permits-Wakes_example : Wakes 1 8 (add_permits 1 1 busy)
unfolding is_closed is_waiting push_waiter set_waker new_handle WaitQueue.new
add_permits-Wakes_example = add_permits-Wakes 0 1 1 8 busy refl refl refl (omega arith)

sections-agree_example :
    (interrupted 3 (λ k. close_word) (locking 2) busy ≢ none)
    × (uninterrupted 3 (locking 2) busy ≡ world_of (add_permits_locked 1 2 busy))
sections-agree_example = sections-agree 0 0 2 (λ k. close_word) busy

add_permits-Added_example :
    Added 18446744073709551615 idle (add_permits 1 18446744073709551615 idle)
unfolding WaitQueue.is_empty WaitQueue.new
add_permits-Added_example =
    add_permits-Added 0 18446744073709551615 idle (omega arith) (omega arith) (omega arith) refl

-- One permit, and a task that needs two.
abbrev needy : World
needy = enter 7 2 (pos 5) idle

needy-Wants : Wants 2 needy.store
unfolding push_waiter new_handle set_waker WaitQueue.new
needy-Wants zero exists waits = omega arith
needy-Wants (suc i) exists waits = absurd (omega arith)

add_permits-Starves_example : Starves 2 needy (releases (1 ∷ 1 ∷ []) needy)
unfolding is_closed available_permits
add_permits-Starves_example =
    add_permits-Starves 2 (1 ∷ 1 ∷ []) needy one_waiter-IsSound refl needy-Wants
      (omega arith, (omega arith, tt)) (omega arith)
