-- ===== src/Semaphore/Leftover.antt =====
-- core.rs, `add_permits_locked`: what becomes of the waiters behind the first batch.
use ranked_semaphore.Common.{
  ℕ, suc, ◌+◌, ◌-◌, ◌^◌, ◌<◌, ◌≡◌, refl, ap, sym, ◌∙◌, true, false, ◌||◌, Option, none, some, List,
  [], ◌∷◌, ◌++◌, length, length-append, ltb, ◌==◌, arith, Bool-cases, inl, inr, subst,
}
use ranked_semaphore.Error.{Exit}
use ranked_semaphore.Waker
use ranked_semaphore.Waker.{num_wakers}
use ranked_semaphore.Waiter.{is_waiting}
use ranked_semaphore.WaitQueue
use ranked_semaphore.WaitQueue.Ready.{member}
use ranked_semaphore.WaitQueue.Settling.{OneEach}
use ranked_semaphore.WaitQueue.ServiceOrder.{
  Handed, is_over, hand_out, hand_out-over, hand_out-append, queue_at, service_order,
}
use ranked_semaphore.WaitQueue.HandingOut.{Unserved}
use ranked_semaphore.WaitQueue.HandingOut.Selections.{
  HandsOut, select-HandsOut, nobody_order, service-Unserved,
}
use ranked_semaphore.WaitQueue.HandingOut.Full.{
  IsKeen, AllKeen, Given, hand_out-Given, front-AllKeen,
}
use ranked_semaphore.WaitQueue.Select.{Selection, select_waiters_to_notify}
use ranked_semaphore.Semaphore.{World, is_closed, available_permits}
use ranked_semaphore.Semaphore.Batches.{IsSound, wake_all_not_full, fetch_add-room}
use ranked_semaphore.Semaphore.Release.{
  leaves, release_loop, add_remaining, finish_release, add_permits_locked, add_permits,
}

-- A call has ended, the permits that are available grew by `more`, and the waiter `j` waits.
abbrev pub Leftover : ℕ → ℕ → World → Option (World × Exit (Unit {0})) → Type 0
Leftover more j w none = ⊥
Leftover more j w (some (v, e)) =
    (available_permits v.permits ≡ available_permits w.permits + more)
    × (is_waiting (v.store.cell j) ≡ true)

module _ (n : ℕ) (w : World) (front back : List ℕ) (j : ℕ) (s : IsSound w) (one : OneEach w.store)
    (order : service_order w.waiters.active_priorities (queue_at w.waiters.priority_queues)
      ≡ front ++ j ∷ back)
    (full : length front ≡ num_wakers)
    (keen : (i : ℕ) → member i front ≡ true → IsKeen (w.store.cell i))
    (waits : is_waiting (w.store.cell j) ≡ true) (many : num_wakers < n) where
  abbrev chosen : Selection
  chosen = select_waiters_to_notify w.waiters w.store n

  abbrev first : Handed
  first = hand_out front n [] w.store

  distinct : AllKeen w.store front × (member j front ≡ false)
  distinct =
      front-AllKeen w.store j front back
        (subst (Unserved w.store) order (
          service-Unserved w.waiters.priority_queues w.store w.waiters.active_priorities s.ready
            one))
        keen

  given : Given front n [] w.store first
  given = hand_out-Given front n [] w.store distinct.0 (omega (arith, full)) (omega (arith, full))

  -- The loop along the service order stops behind the front.
  stopped : HandsOut n chosen first
  stopped =
      let h = select-HandsOut w.waiters w.store n s.valid s.ready one in
      let over : is_over first.left first.tasks ≡ true = ground (arith, given.tasks, full) in
      subst (HandsOut n chosen)
        (ap (λ is. hand_out is n [] w.store) order
          ∙ hand_out-append front (j ∷ back) n [] w.store
          ∙ hand_out-over (j ∷ back) first.left first.tasks first.store over)
        h

  assigned : chosen.assigned ≡ num_wakers
  assigned = omega (arith, stopped.divided, given.left, full)

  still_waits : is_waiting (chosen.store.cell j) ≡ true
  still_waits =
      ap (λ m. is_waiting (m.cell j)) stopped.store
      ∙ ap is_waiting (given.others j distinct.1)
      ∙ waits

  somebody : WaitQueue.is_empty w.waiters ≡ false
  unfolding WaitQueue.is_empty
  somebody = elim (Bool-cases (WaitQueue.is_empty w.waiters)) [
    | inl e ↦
        let nil = nobody_order w.waiters w.store n s.valid s.ready one (ground arith) in
        absurd (ground (arith, ap length (sym nil ∙ order), length-append front (j ∷ back), full))
    | inr e ↦ e
  ]

  goes_on : (chosen.assigned == 0 || Waker.is_empty chosen.wake_list) ≡ false
  unfolding Waker.is_empty
  goes_on = ground (arith, assigned, stopped.tasks.counted, given.tasks, full)

  -- The world in which the remainder is added.
  abbrev behind : World
  behind = record {
    sem = record { permits = w.permits; waiters = chosen.queue };
    store = chosen.store;
    woken = w.woken ++ (Waker.wake_all chosen.wake_list).1;
  }

  loop-leaves :
      (fuel : ℕ)
      → is_closed w.permits ≡ false
      → release_loop (suc fuel) n w ≡ some (leaves (n - num_wakers) behind)
  unfolding release_loop
  loop-leaves fuel opened =
      let some_left : (n == 0) ≡ false = ground arith in
      rw (some_left, somebody, goes_on, opened, wake_all_not_full chosen.wake_list, assigned) refl

  call-Leftover :
      (fuel : ℕ)
      → is_closed w.permits ≡ false
      → available_permits w.permits + n < 2 ^ 63
      → Leftover (n - num_wakers) j w (add_permits (suc fuel) n w)
  unfolding add_permits add_permits_locked finish_release add_remaining
  call-Leftover fuel opened room =
      let some_left : (n == 0) ≡ false = ground arith in
      let more : ltb 0 (n - num_wakers) ≡ true = ground arith in
      rw (some_left, add_permits_locked, loop-leaves fuel opened, finish_release, more)
        ((fetch_add-room behind (n - num_wakers) (omega (arith, room)) s.word).0, still_waits)

-- If every waiter needs one permit, the first 32 of the service order wait and have left wakers, and
-- another waiter j behind them waits too, then `add_permits(n)` with n above 32, on an open
-- semaphore between two calls with room for n more permits, ends with n - 32 more permits available
-- and with j still waiting: the permits that the first batch leaves go to the word.
pub add_permits-Leftover :
    (fuel n : ℕ) (w : World) (front back : List ℕ) (j : ℕ)
    → IsSound w
    → OneEach w.store
    → is_closed w.permits ≡ false
    → available_permits w.permits + n < 2 ^ 63
    → service_order w.waiters.active_priorities (queue_at w.waiters.priority_queues)
      ≡ front ++ j ∷ back
    → length front ≡ num_wakers
    → ((i : ℕ) → member i front ≡ true → IsKeen (w.store.cell i))
    → is_waiting (w.store.cell j) ≡ true
    → num_wakers < n
    → Leftover (n - num_wakers) j w (add_permits (suc fuel) n w)
add_permits-Leftover fuel n w front back j s one opened room order full keen waits many =
    call-Leftover n w front back j s one order full keen waits many fuel opened room
